-- ===== src/Symbols/Lookup.antt =====
-- What `SymbolTable::find` returns, and how it sees an insertion.
use xenon_recomp.Base.{
  ℕ, ◌+◌, ◌^◌, ◌≤◌, ◌<◌, ◌≡◌, refl, inl, inr, sym, Bool, true, false, ◌&&◌, ltb, ◌==◌,
  if◌then◌else◌, if-cases, if-elim, Bool-cases, Option, none, some, List, [], ◌∷◌, All, arith,
  ltb→lt, ltb→le,
}
use xenon_recomp.Symbols.{
  Symbol, insert_symbol, take_equal, equal_range, find_loop, find_in_range, find_symbol,
}

abbrev pub IsOrdered : List Symbol → Type 0
IsOrdered [] = Unit {0}
IsOrdered (s ∷ ss) = All (λ t. s.address ≤ t.address) ss × IsOrdered ss

abbrev pub NoWrap : Symbol → Type 0
NoWrap s = (s.address < 2 ^ 64) × (s.address + s.size < 2 ^ 64)

-- Whether a symbol starts at the address and is not empty.
abbrev pub starts_at : ℕ → Symbol → Bool
starts_at a s = s.address == a && ltb 0 s.size

-- The last of the symbols that start at the address and are not empty, or what came before.
abbrev pub last_at : ℕ → Option Symbol → List Symbol → Option Symbol
last_at a before [] = before
last_at a before (s ∷ ss) = last_at a (if starts_at a s then some s else before) ss

none_at :
    (a : ℕ) (before : Option Symbol) (ss : List Symbol)
    → All (λ t. a < t.address) ss
    → last_at a before ss ≡ before
none_at a before [] h = refl
none_at a before (s ∷ ss) h = ground (arith, none_at a before ss h.1)

All-lt :
    (a b : ℕ) (ss : List Symbol) → a < b → All (λ t. b ≤ t.address) ss → All (λ t. a < t.address) ss
All-lt a b [] lt h = tt
All-lt a b (s ∷ ss) lt h = (omega arith, All-lt a b ss lt h.1)

loop-last_at :
    (a : ℕ) (before : Option Symbol) (ss : List Symbol)
    → IsOrdered ss
    → All NoWrap ss
    → All (λ t. a ≤ t.address) ss
    → find_loop a 0 before (take_equal a ss) ≡ last_at a before ss
unfolding find_loop take_equal
loop-last_at a before [] o w h = refl
loop-last_at a before (s ∷ ss) o w h = elim (Bool-cases (ltb a s.address)) [
  | inl stops ↦ rw stops (
      sym (
        none_at a before (s ∷ ss) (ltb→lt _ _ stops, All-lt a s.address ss (ltb→lt _ _ stops) o.0)))
  | inr goes ↦
      rw goes (
        ground
          (arith, loop-last_at a before ss o.1 w.1 h.1, loop-last_at a (some s) ss o.1 w.1 h.1))
]

All-le :
    (a b : ℕ) (ss : List Symbol) → a ≤ b → All (λ t. b ≤ t.address) ss → All (λ t. a ≤ t.address) ss
All-le a b [] le h = tt
All-le a b (s ∷ ss) le h = (omega arith, All-le a b ss le h.1)

-- Symbols below the address do not count.
skip_at :
    (a : ℕ) (before : Option Symbol) (s : Symbol) (ss : List Symbol)
    → s.address < a
    → last_at a before (s ∷ ss) ≡ last_at a before ss
skip_at a before s ss lt = ground arith

range-last_at :
    (a : ℕ) (ss : List Symbol)
    → IsOrdered ss
    → All NoWrap ss
    → a < 2 ^ 64
    → find_in_range a (equal_range a ss) ≡ last_at a none ss
unfolding equal_range take_equal find_in_range find_loop
range-last_at a [] o w lt = refl
range-last_at a (s ∷ ss) o w lt = elim (Bool-cases (ltb s.address a)) [
  | inl below ↦ rw (below, skip_at a none s ss (ltb→lt _ _ below)) (range-last_at a ss o.1 w.1 lt)
  | inr reached ↦ rw reached (elim (Bool-cases (ltb a s.address)) [
    | inl up ↦
        rw (up, none_at a none (s ∷ ss) (ltb→lt _ _ up, All-lt a s.address ss (ltb→lt _ _ up) o.0))
    | inr same ↦
        let from : All (λ t. a ≤ t.address) ss = All-le a s.address ss (ltb→le _ _ reached) o.0 in
        rw same (
          ground
            (arith, loop-last_at a none ss o.1 w.1 from, loop-last_at a (some s) ss o.1 w.1 from))
  ])
]

-- `find` returns the last of the symbols that start exactly at the address and are not empty:
-- an address inside a symbol, and the start of an empty symbol, are not found.
pub find_symbol-last_at :
    (a : ℕ) (ss : List Symbol)
    → IsOrdered ss
    → All NoWrap ss
    → a < 2 ^ 64
    → find_symbol a ss ≡ last_at a none ss
unfolding find_symbol
find_symbol-last_at a ss o w lt = range-last_at a ss o w lt

insert-All {ℓ} :
    (P : Symbol → Type ℓ) (s : Symbol) (ss : List Symbol)
    → P s
    → All P ss
    → All P (insert_symbol s ss)
unfolding insert_symbol
insert-All P s [] p ps = (p, tt)
insert-All P s (t ∷ ts) p ps =
    if-elim (All P) (ltb s.address t.address) (p, ps) (ps.0, insert-All P s ts p ps.1)

-- `insert` keeps the order of the multiset.
pub insert-IsOrdered :
    (s : Symbol) (ss : List Symbol) → IsOrdered ss → IsOrdered (insert_symbol s ss)
unfolding insert_symbol
insert-IsOrdered s [] o = (tt, tt)
insert-IsOrdered s (t ∷ ts) o =
    if-cases IsOrdered (ltb s.address t.address)
      (λ first. ((ground arith, All-le s.address t.address ts (ground arith) o.0), o))
      (λ behind. (
        insert-All (λ u. t.address ≤ u.address) s ts (ltb→le _ _ behind) o.0,
        insert-IsOrdered s ts o.1,
      ))

if_last_at :
    (a : ℕ) (before : Option Symbol) (s : Symbol) (ss : List Symbol) (hit : Bool)
    → (hit ≡ true → last_at a (some s) ss ≡ some s)
    → last_at a (if hit then some s else before) ss ≡ (if hit then some s else last_at a before ss)
if_last_at a before s ss true h = h refl
if_last_at a before s ss false h = refl

insert-last_at :
    (a : ℕ) (before : Option Symbol) (s : Symbol) (ss : List Symbol)
    → IsOrdered ss
    → last_at a before (insert_symbol s ss)
      ≡ (if starts_at a s then some s else last_at a before ss)
unfolding insert_symbol
insert-last_at a before s [] o = refl
insert-last_at a before s (t ∷ ts) o =
    if-cases
      (λ r. last_at a before r ≡ (if starts_at a s then some s else last_at a before (t ∷ ts)))
      (ltb s.address t.address)
      (λ first. if_last_at a before s (t ∷ ts) (starts_at a s) (λ hit.
        none_at a (some s) (t ∷ ts) (ground arith, All-lt a t.address ts (ground arith) o.0)))
      (λ behind. insert-last_at a (if starts_at a t then some t else before) s ts o.1)

-- A symbol that has just been inserted is found at its start if it is not empty; at any other
-- address, and if it is empty, `find` sees what it saw before.
pub find_symbol-insert_symbol :
    (a : ℕ) (s : Symbol) (ss : List Symbol)
    → IsOrdered ss
    → All NoWrap ss
    → NoWrap s
    → a < 2 ^ 64
    → find_symbol a (insert_symbol s ss)
      ≡ (if s.address == a && ltb 0 s.size then some s else find_symbol a ss)
find_symbol-insert_symbol a s ss o w ws lt =
    rw
      (
        find_symbol-last_at a (insert_symbol s ss) (insert-IsOrdered s ss o)
            (insert-All (λ t. NoWrap t) s ss ws w) lt,
        find_symbol-last_at a ss o w lt,
      )
      (insert-last_at a none s ss o)
