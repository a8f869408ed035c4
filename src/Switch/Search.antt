-- ===== src/Switch/Search.antt =====
-- The pattern search of `XenonAnalyse/main.cpp`: `SearchMask` and the loop of `scanPattern`.
use xenon_recomp.Base.{
  ℕ, zero, suc, ◌+◌, ◌-◌, ◌≤◌, ◌<◌, ◌≡◌, refl, sym, ap, subst, ◌∙◌, ◌↔◌, inl, inr, Bool, true, ltb,
  if◌then◌else◌, if-cases, if_true, if_false, Bool-cases, Option-cases, Option, none, some, List,
  [], ◌∷◌, get_elem?, arith, some-injective, ltb→le,
}
use xenon_recomp.Switch.{Insn, has_id, mask_at, search_loop, search_mask, scan_section}

-- The words from `i` on have the ids of the pattern, and none of them lies behind the section.
abbrev pub Matches : (ℕ → Insn) → ℕ → List ℕ → ℕ → Type 0
Matches insn words pattern i =
    (c x : ℕ) → get_elem? pattern c ≡ some x → (i + c < words) × (has_id (insn (i + c)) x ≡ true)

-- The positions at which a test holds, among `left` positions from `i` on.
abbrev pub positions : (ℕ → Bool) → ℕ → ℕ → List ℕ
positions test zero i = []
positions test (suc left) i =
    let rest = positions test left (i + 1) in if test i then i ∷ rest else rest

positions-cong :
    (test : ℕ → Bool) {n n' i i' : ℕ} → n ≡ n' → i ≡ i' → positions test n i ≡ positions test n' i'
positions-cong test hn hi = cc

mask_at_sound :
    (insn : ℕ → Insn) (words : ℕ) (pattern : List ℕ) (i : ℕ)
    → mask_at insn words pattern i ≡ true
    → Matches insn words pattern i
unfolding mask_at
mask_at_sound insn words [] i h c x e = absurd (never e)
  where
    never : {y : ℕ} → none ≡ some y → ⊥
    never e = cc
mask_at_sound insn words (y ∷ ys) i h zero x e = (
  ground arith,
  subst (λ z. has_id (insn (i + 0)) z ≡ true) (some-injective _ _ e) (ground arith),
)
mask_at_sound insn words (y ∷ ys) i h (suc c) x e =
    subst (λ n. (n < words) × (has_id (insn n) x ≡ true)) {x = i + 1 + c} (omega arith)
      (mask_at_sound insn words ys (i + 1) (ground arith) c x e)

mask_at_complete :
    (insn : ℕ → Insn) (words : ℕ) (pattern : List ℕ) (i : ℕ)
    → Matches insn words pattern i
    → mask_at insn words pattern i ≡ true
unfolding mask_at
mask_at_complete insn words [] i h = refl
mask_at_complete insn words (y ∷ ys) i h =
    let now = h 0 y refl in
    let rest = mask_at_complete insn words ys (i + 1) (λ c x e.
      subst (λ n. (n < words) × (has_id (insn n) x ≡ true)) {x = i + suc c} (omega arith)
        (h (suc c) x e)) in
    ground (arith, now, rest)

-- The inner loop of `SearchMask` accepts a position exactly if the pattern matches there.
pub mask_at_iff :
    (insn : ℕ → Insn) (words : ℕ) (pattern : List ℕ) (i : ℕ)
    → (mask_at insn words pattern i ≡ true) ↔ Matches insn words pattern i
mask_at_iff insn words pattern i =
    (mask_at_sound insn words pattern i, mask_at_complete insn words pattern i)

mask_at-shift :
    (insn : ℕ → Insn) (words pos : ℕ) (pattern : List ℕ) (i : ℕ)
    → pos ≤ words
    → mask_at (λ k. insn (pos + k)) (words - pos) pattern i ≡ mask_at insn words pattern (pos + i)
unfolding mask_at
mask_at-shift insn words pos [] i le = refl
mask_at-shift insn words pos (x ∷ xs) i le =
    let rest = mask_at-shift insn words pos xs (i + 1) le in ground (arith, rest)

module _ (insn : ℕ → Insn) (words pos : ℕ) (pattern : List ℕ) (le : pos ≤ words) where
  search_loop-none :
      (left i : ℕ)
      → search_loop (λ k. insn (pos + k)) (words - pos) pattern left i ≡ none
      → positions (mask_at insn words pattern) left (pos + i) ≡ []
  unfolding search_loop
  search_loop-none zero i h = refl
  search_loop-none (suc left) i h =
      let shift = mask_at-shift insn words pos pattern i le in
      elim (Bool-cases (mask_at insn words pattern (pos + i))) [
        | inl here ↦ absurd (some≢none (sym (if_true _ _ (shift ∙ here)) ∙ h))
        | inr not_here ↦
            if_false _ _ not_here
            ∙ positions-cong (mask_at insn words pattern) refl (omega arith)
            ∙ search_loop-none left (i + 1) (sym (if_false _ _ (shift ∙ not_here)) ∙ h)
      ]
    where
      some≢none : {x : ℕ} → some x ≡ none → ⊥
      some≢none e = cc

  search_loop-some :
      (left i k : ℕ)
      → search_loop (λ k. insn (pos + k)) (words - pos) pattern left i ≡ some k
      → (i ≤ k)
        × (k < i + left)
        × (positions (mask_at insn words pattern) left (pos + i)
            ≡ (pos + k) ∷ positions (mask_at insn words pattern) (i + left - (k + 1)) (pos + k + 1))
  unfolding search_loop
  search_loop-some zero i k h = absurd cc
  search_loop-some (suc left) i k h =
      let shift = mask_at-shift insn words pos pattern i le in
      elim (Bool-cases (mask_at insn words pattern (pos + i))) [
        | inl here ↦
            let eq = some-injective _ _ (sym (if_true _ _ (shift ∙ here)) ∙ h) in
            (
              omega (arith, eq),
              omega (arith, eq),
              if_true _ _ here
                  ∙ cons_cong (omega (arith, eq)) (
                      positions-cong (mask_at insn words pattern) (omega (arith, eq))
                        (omega (arith, eq))),
            )
        | inr not_here ↦
            let (lo, hi, rest) =
              search_loop-some left (i + 1) k (sym (if_false _ _ (shift ∙ not_here)) ∙ h) in
            (
              omega (arith, lo),
              omega (arith, hi),
              if_false _ _ not_here
                  ∙ positions-cong (mask_at insn words pattern) refl (omega arith)
                  ∙ rest
                  ∙ cons_cong refl (positions-cong (mask_at insn words pattern) (omega arith) refl),
            )
      ]
    where
      cons_cong : {x y : ℕ} {xs ys : List ℕ} → x ≡ y → xs ≡ ys → (x ∷ xs) ≡ (y ∷ ys)
      cons_cong ex exs = cc

search_mask-loop :
    (insn : ℕ → Insn) (words pos : ℕ) (pattern : List ℕ) {r : Option ℕ}
    → search_mask (λ k. insn (pos + k)) (words - pos) pattern ≡ r
    → search_loop (λ k. insn (pos + k)) (words - pos) pattern (words - pos) 0 ≡ r
unfolding search_mask
search_mask-loop insn words pos pattern e = e

-- The loop of `scanPattern` ends, and it finds every position of the section at which the pattern
-- matches, each once and in order; fuel above the number of words is enough.
pub scan_section-positions :
    (insn : ℕ → Insn) (pattern : List ℕ) (words fuel pos : ℕ)
    → pos ≤ words
    → words < fuel + pos
    → scan_section insn pattern words fuel pos
      ≡ some (positions (mask_at insn words pattern) (words - pos) pos)
unfolding scan_section
scan_section-positions insn pattern words zero pos le enough = absurd (omega arith)
scan_section-positions insn pattern words (suc fuel) pos le enough =
    if-cases (λ r. r ≡ some (positions (mask_at insn words pattern) (words - pos) pos))
      (ltb pos words)
      (λ lt. elim (Option-cases (search_mask (λ k. insn (pos + k)) (words - pos) pattern)) [
        | inl e ↦ rw e (
            ap some (
              sym (
                positions-cong (mask_at insn words pattern) refl (omega arith)
                ∙ search_loop-none insn words pos pattern le (words - pos) 0
                    (search_mask-loop insn words pos pattern e))))
        | inr (k, e) ↦
            let (lo, hi, at_k) =
              search_loop-some insn words pos pattern le (words - pos) 0 k
                (search_mask-loop insn words pos pattern e) in
            let rest =
              scan_section-positions insn pattern words fuel (pos + k + 1) (omega (arith, hi))
                (omega arith) in
            rw (e, rest)
              (ap some (
                sym (
                  positions-cong (mask_at insn words pattern) refl (omega arith)
                  ∙ at_k
                  ∙ ap (◌∷◌ (pos + k))
                      (positions-cong (mask_at insn words pattern) (omega (arith, hi)) refl))))
      ])
      (λ ge. ap some (
        sym (
          positions-cong (mask_at insn words pattern) {n' = 0} (omega (arith, ltb→le pos words ge))
            refl)))
