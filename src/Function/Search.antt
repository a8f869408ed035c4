-- ===== src/Function/Search.antt =====
-- What `SearchBlock` of `XenonAnalyse/function.cpp` finds.
use xenon_recomp.Base.{
  ℕ, zero, suc, ◌+◌, ◌≤◌, ◌<◌, ◌^◌, ◌≡◌, refl, ◌⊎◌, inl, inr, true, false, Option, none, some, List,
  [], ◌∷◌, get_elem?, All, Bool-cases, arith, ltb,
}
use xenon_recomp.Function.{Block, block_hit, search_from, search_block}

-- The addresses that a block answers to: those between its ends, or its start while it is fresh.
abbrev pub Holds : ℕ → ℕ → Block → Type 0
Holds base address b =
    (base + b.base ≤ address) × (address < base + b.base + b.size)
    ⊎ (b.size ≡ 0) × (address ≡ base + b.base)

abbrev pub NoWrap : ℕ → Block → Type 0
NoWrap base b = base + b.base + b.size < 2 ^ 64

-- The result names the first block that holds the address, or no block holds it.
abbrev pub Finds : ℕ → ℕ → List Block → ℕ → Option ℕ → Type 0
Finds base address blocks first none = All (λ b. ¬ Holds base address b) blocks
Finds base address blocks first (some i) =
    (j : ℕ) × (b : Block) × (i ≡ first + j)
    × (get_elem? blocks j ≡ some b)
    × Holds base address b
    × ((k : ℕ) (c : Block) → k < j → get_elem? blocks k ≡ some c → ¬ Holds base address c)

hit-Holds :
    (base address : ℕ) (b : Block)
    → NoWrap base b
    → block_hit base address b ≡ true
    → Holds base address b
unfolding block_hit
hit-Holds base address b w h = ground arith

miss-Holds :
    (base address : ℕ) (b : Block)
    → NoWrap base b
    → block_hit base address b ≡ false
    → ¬ Holds base address b
unfolding block_hit
miss-Holds base address b w h (inl (p, q)) = ground arith
miss-Holds base address b w h (inr (p, q)) = ground arith

Finds-cons :
    (base address : ℕ) (b : Block) (bs : List Block) (first : ℕ) (r : Option ℕ)
    → ¬ Holds base address b
    → Finds base address bs (first + 1) r
    → Finds base address (b ∷ bs) first r
Finds-cons base address b bs first none miss f = (miss, f)
Finds-cons base address b bs first (some i) miss (j, c, e, at, hold, before) =
    (suc j, c, omega arith, at, hold, earlier)
  where
    earlier :
        (k : ℕ) (d : Block) → k < suc j → get_elem? (b ∷ bs) k ≡ some d → ¬ Holds base address d
    earlier zero d lt e' hd = miss (subst_holds (cc) hd)
      where
        subst_holds : d ≡ b → Holds base address d → Holds base address b
        subst_holds p q = ground arith
    earlier (suc k) d lt e' hd = before k d (omega arith) e' hd

search_from-Finds :
    (base address first : ℕ) (blocks : List Block)
    → All (NoWrap base) blocks
    → Finds base address blocks first (search_from base address first blocks)
unfolding search_from
search_from-Finds base address first [] w = tt
search_from-Finds base address first (b ∷ bs) w = elim (Bool-cases (block_hit base address b)) [
  | inl hit ↦
      rw hit
        (0, b, omega arith, refl, hit-Holds base address b w.0 hit, λ k c lt. absurd (omega arith))
  | inr miss ↦ rw miss (
      Finds-cons base address b bs first _ (miss-Holds base address b w.0 miss)
        (search_from-Finds base address (first + 1) bs w.1))
]

below-Holds :
    (base address : ℕ) (blocks : List Block)
    → address < base
    → All (λ b. ¬ Holds base address b) blocks
below-Holds base address [] lt = tt
below-Holds base address (b ∷ bs) lt = (λ h. ground arith, below-Holds base address bs lt)

-- `SearchBlock` returns the index of the first block that holds the address, and -1 only if no
-- block holds it. A block holds the addresses between its ends, and while it is empty its start.
-- The ends of all blocks fit 64 bits.
pub search_block-Finds :
    (base address : ℕ) (blocks : List Block)
    → All (NoWrap base) blocks
    → Finds base address blocks 0 (search_block base blocks address)
unfolding search_block
search_block-Finds base address blocks w = elim (Bool-cases (ltb address base)) [
  | inl lt ↦ rw lt (below-Holds base address blocks (ground arith))
  | inr ge ↦ rw ge (search_from-Finds base address 0 blocks w)
]
