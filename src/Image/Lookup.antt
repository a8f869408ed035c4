-- ===== src/Image/Lookup.antt =====
-- What the lookups of `XenonUtils/image.cpp` find, and what `Map` keeps.
use xenon_recomp.Base.{
  ℕ, ◌+◌, ◌^◌, ◌≤◌, ◌<◌, ◌≡◌, refl, ◌⊎◌, inl, inr, Option, none, some, List, [], ◌∷◌, All, if-cases,
  if-elim, ltb, leb, ltb→lt, ltb→le, subst, add64, true, ◌||◌, arith,
}
use xenon_recomp.Image.{Section, insert_section, before_upper_bound, check_section, find_section}

-- The bases rise, and no section reaches into the next one.
abbrev pub IsLaidOut : List Section → Type 0
IsLaidOut [] = Unit {0}
IsLaidOut (s ∷ []) = s.base + s.size < 2 ^ 64
IsLaidOut (s ∷ t ∷ ts) = (s.base + s.size ≤ t.base) × (s.base < t.base) × IsLaidOut (t ∷ ts)

abbrev pub Contains : ℕ → Section → Type 0
Contains address s = (s.base ≤ address) × (address < s.base + s.size)

abbrev pub Mem : Section → List Section → Type 0
Mem s [] = ⊥
Mem s (t ∷ ts) = (s ≡ t) ⊎ Mem s ts

-- The result is the section that contains the address, and no other does; or none does.
abbrev pub Finds : ℕ → List Section → Option Section → Type 0
Finds address sections none = All (λ s. ¬ Contains address s) sections
Finds address sections (some s) =
    Mem s sections
    × Contains address s
    × ((t : Section) → Mem t sections → Contains address t → t ≡ s)

-- In a laid-out list every section starts at or above the first.
above :
    (address : ℕ) (s : Section) (ss : List Section) (t : Section)
    → IsLaidOut (s ∷ ss)
    → address < s.base
    → Mem t (s ∷ ss)
    → ¬ Contains address t
above address s ss t l lt (inl e) h = ground arith
above address s [] t l lt (inr m) h = m
above address s (u ∷ us) t l lt (inr m) h = above address u us t l.2 (omega arith) m h

-- The walk from a section that starts at or below the address stops at the only section that can
-- contain it.
abbrev Last : ℕ → List Section → Option Section → Type 0
Last address ss r =
    (q : Section) × (r ≡ some q)
    × Mem q ss
    × (q.base ≤ address)
    × (q.base + q.size < 2 ^ 64)
    × ((t : Section) → Mem t ss → Contains address t → t ≡ q)

head-fits : (s : Section) (ss : List Section) → IsLaidOut (s ∷ ss) → s.base + s.size < 2 ^ 64
head-fits s [] l = l
head-fits s (t ∷ ts) l = omega (arith, head-fits t ts l.2)

upper-Last :
    (address : ℕ) (p : Section) (ss : List Section)
    → IsLaidOut (p ∷ ss)
    → p.base ≤ address
    → Last address (p ∷ ss) (before_upper_bound address (some p) ss)
unfolding before_upper_bound
upper-Last address p [] l le =
    (p, refl, inl refl, le, l, λ t. elim [ inl e ↦ λ h. e | inr nowhere ↦ absurd nowhere ])
upper-Last address p (s ∷ ss) l le =
    if-cases (Last address (p ∷ s ∷ ss)) (ltb address s.base)
      (λ stops. (
        p,
        refl,
        inl refl,
        le,
        head-fits p (s ∷ ss) l,
        λ t. elim [
          | inl e ↦ λ h. e
          | inr m ↦ λ h. absurd (above address s ss t l.2 (ltb→lt _ _ stops) m h)
        ],
      ))
      (λ goes.
        let (q, e, m, below, fits, only) = upper-Last address s ss l.2 (ltb→le _ _ goes) in
        (
          q,
          e,
          inr m,
          below,
          fits,
          λ t. elim [
            | inl first ↦ λ h. absurd (ends t (ltb→le _ _ goes) first h)
            | inr later ↦ only t later
          ],
        ))
  where
    ends : (t : Section) → s.base ≤ address → t ≡ p → Contains address t → ⊥
    ends t past e h = ground arith

All-of :
    (address : ℕ) (ss : List Section)
    → ((t : Section) → Mem t ss → ¬ Contains address t)
    → All (λ s. ¬ Contains address s) ss
All-of address [] h = tt
All-of address (s ∷ ss) h = (h s (inl refl), All-of address ss (λ t m. h t (inr m)))

check-Finds :
    (address : ℕ) (ss : List Section) (q : Section)
    → Mem q ss
    → q.base ≤ address
    → q.base + q.size < 2 ^ 64
    → ((t : Section) → Mem t ss → Contains address t → t ≡ q)
    → Finds address ss (check_section address (some q))
unfolding check_section
check-Finds address ss q m le fits only =
    if-cases (Finds address ss) (ltb address q.base || leb (add64 q.base q.size) address)
      (λ misses.
        All-of address ss (λ t n h. absent (subst (Contains address) (only t n h) h) misses))
      (λ hits. (m, (le, ground arith), only))
  where
    absent :
        Contains address q → (ltb address q.base || leb (add64 q.base q.size) address) ≡ true → ⊥
    absent h e = ground arith

find_from-Finds :
    (address : ℕ) (sections : List Section)
    → IsLaidOut sections
    → Finds address sections (check_section address (before_upper_bound address none sections))
unfolding before_upper_bound
find_from-Finds address [] l = unfold check_section in tt
find_from-Finds address (s ∷ ss) l =
    if-cases (λ r. Finds address (s ∷ ss) (check_section address r)) (ltb address s.base)
      (λ stops.
        unfold check_section in
        All-of address (s ∷ ss) (λ t. above address s ss t l (ltb→lt _ _ stops)))
      (λ goes.
        let (q, e, m, below, fits, only) = upper-Last address s ss l (ltb→le _ _ goes) in
        rw e (check-Finds address (s ∷ ss) q m below fits only))

-- `FindSection` returns the one section that contains the address, and the null pointer exactly
-- when none does, for sections in order that do not overlap and do not wrap.
pub find_section-Finds :
    (address : ℕ) (sections : List Section)
    → IsLaidOut sections
    → Finds address sections (find_section sections address)
unfolding find_section
find_section-Finds address sections l = find_from-Finds address sections l

-- Where `Map` puts a section that starts at a free base the list stays in strict order.
abbrev pub IsOrdered : List Section → Type 0
IsOrdered [] = Unit {0}
IsOrdered (s ∷ ss) = All (λ t. s.base < t.base) ss × IsOrdered ss

insert-All :
    (b : ℕ) (s : Section) (ss : List Section)
    → b < s.base
    → All (λ t. b < t.base) ss
    → All (λ t. b < t.base) (insert_section s ss)
unfolding insert_section
insert-All b s [] lt os = (lt, tt)
insert-All b s (t ∷ ts) lt os =
    if-elim (All (λ t. b < t.base)) (ltb s.base t.base) (lt, os)
      (if-elim (All (λ t. b < t.base)) (ltb t.base s.base) (os.0, insert-All b s ts lt os.1) os)

All-above :
    (a b : ℕ) (ss : List Section) → a < b → All (λ t. b < t.base) ss → All (λ t. a < t.base) ss
All-above a b [] lt os = tt
All-above a b (s ∷ ss) lt os = (omega arith, All-above a b ss lt os.1)

insert-IsOrdered :
    (s : Section) (ss : List Section) → IsOrdered ss → IsOrdered (insert_section s ss)
unfolding insert_section
insert-IsOrdered s [] o = (tt, tt)
insert-IsOrdered s (t ∷ ts) o =
    if-cases IsOrdered (ltb s.base t.base)
      (λ before. ((ltb→lt _ _ before, All-above s.base t.base ts (ltb→lt _ _ before) o.0), o))
      (λ behind.
        if-cases IsOrdered (ltb t.base s.base)
          (λ past. (insert-All t.base s ts (ltb→lt _ _ past) o.0, insert-IsOrdered s ts o.1))
          (λ taken. o))
