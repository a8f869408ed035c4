-- ===== src/Crt/Runs.antt =====
-- What the run detectors of `XenonUtils/crt_helpers.cpp` accept.
use xenon_recomp.Base.{
  ℕ, zero, suc, ◌+◌, ◌-◌, ◌*◌, ◌≤◌, ◌<◌, ◌≡◌, refl, ◌↔◌, Bool, true, add32, arith, subst, dec_lt,
}
use xenon_recomp.Crt.{
  Matcher, register_loop, detect_register_run, pair_loop, detect_vector_pair_run, ra, rb, is_addi,
}

-- Word `j` behind the first loads or stores the `j`-th register, at the displacement of the first
-- plus `j` strides.
abbrev pub Continues : (ℕ → ℕ) → Matcher → ℕ → ℕ → ℕ → ℕ → ℕ → Type 0
Continues word m i first_reg stride displacement j =
    (m.matches (word (i + j)) (first_reg + j) ≡ true)
    × (m.displacement (word (i + j)) ≡ add32 displacement (j * stride))

register_loop_sound :
    (word : ℕ → ℕ) (m : Matcher) (i first_reg stride d left k : ℕ)
    → register_loop word m i first_reg stride d left k ≡ true
    → (j : ℕ) → k ≤ j
    → j < k + left
    → Continues word m i first_reg stride d j
unfolding register_loop
register_loop_sound word m i first_reg stride d zero k h j lo hi = absurd (omega arith)
register_loop_sound word m i first_reg stride d (suc left) k h j lo hi = elim (dec_lt k j) [
  | yes lt ↦
      register_loop_sound word m i first_reg stride d left (k + 1) (ground arith) j (omega arith)
        (omega arith)
  | no ge ↦ subst (Continues word m i first_reg stride d) (at_k (λ lt. ge lt)) (ground arith)
]
  where
    at_k : ¬ k < j → k ≡ j
    at_k n = omega arith

register_loop_complete :
    (word : ℕ → ℕ) (m : Matcher) (i first_reg stride d left k : ℕ)
    → ((j : ℕ) → k ≤ j → j < k + left → Continues word m i first_reg stride d j)
    → register_loop word m i first_reg stride d left k ≡ true
unfolding register_loop
register_loop_complete word m i first_reg stride d zero k h = refl
register_loop_complete word m i first_reg stride d (suc left) k h =
    let now = h k (omega arith) (omega arith) in
    let rest =
      register_loop_complete word m i first_reg stride d left (k + 1)
        (λ j lo hi. h j (omega arith) (omega arith)) in
    ground (arith, now, rest)

-- `DetectRegisterRun` accepts a word exactly if `count` words fit the section behind it, the word
-- is for the first register, and each word behind it is for the next register at the next
-- displacement.
pub detect_register_run_iff :
    (word : ℕ → ℕ) (word_count i first_reg count stride : ℕ) (m : Matcher)
    → 0 < count
    → (detect_register_run word word_count i first_reg count stride m ≡ true) ↔ (
        (i + count ≤ word_count)
        × (m.matches (word i) first_reg ≡ true)
        × ((j : ℕ)
            → 1 ≤ j
            → j < count
            → Continues word m i first_reg stride (m.displacement (word i)) j))
unfolding detect_register_run
detect_register_run_iff word word_count i first_reg count stride m pos = (
  (λ h. (
    ground arith,
    ground arith,
    λ j lo hi.
        register_loop_sound word m i first_reg stride (m.displacement (word i)) (count - 1) 1
          (ground arith) j lo (omega arith),
  )),
  (λ (fits, first, each).
      let rest =
        register_loop_complete word m i first_reg stride (m.displacement (word i)) (count - 1) 1
          (λ j lo hi. each j lo (omega arith)) in
      ground (arith, rest, fits, first)),
)

-- Pair `j` is an address setup and, behind it, a load or store of the `j`-th register through the
-- address registers of the first pair.
abbrev pub Pairs : (ℕ → ℕ) → (ℕ → ℕ → Bool) → ℕ → ℕ → ℕ → ℕ → ℕ → Type 0
Pairs word match i first_reg a b j =
    (match (word (i + j * 2)) (first_reg + j) ≡ true)
    × (ra (word (i + j * 2)) ≡ a)
    × (rb (word (i + j * 2)) ≡ b)
    × (is_addi (word (i + j * 2 - 1)) ≡ true)

pair_loop_sound :
    (word : ℕ → ℕ) (match : ℕ → ℕ → Bool) (i first_reg a b left k : ℕ)
    → pair_loop word match i first_reg a b left k ≡ true
    → (j : ℕ) → k ≤ j
    → j < k + left
    → Pairs word match i first_reg a b j
unfolding pair_loop
pair_loop_sound word match i first_reg a b zero k h j lo hi = absurd (omega arith)
pair_loop_sound word match i first_reg a b (suc left) k h j lo hi = elim (dec_lt k j) [
  | yes lt ↦
      pair_loop_sound word match i first_reg a b left (k + 1) (ground arith) j (omega arith)
        (omega arith)
  | no ge ↦ subst (Pairs word match i first_reg a b) (at_k (λ lt. ge lt)) (ground arith)
]
  where
    at_k : ¬ k < j → k ≡ j
    at_k n = omega arith

pair_loop_complete :
    (word : ℕ → ℕ) (match : ℕ → ℕ → Bool) (i first_reg a b left k : ℕ)
    → ((j : ℕ) → k ≤ j → j < k + left → Pairs word match i first_reg a b j)
    → pair_loop word match i first_reg a b left k ≡ true
unfolding pair_loop
pair_loop_complete word match i first_reg a b zero k h = refl
pair_loop_complete word match i first_reg a b (suc left) k h =
    let now = h k (omega arith) (omega arith) in
    let rest =
      pair_loop_complete word match i first_reg a b left (k + 1)
        (λ j lo hi. h j (omega arith) (omega arith)) in
    ground (arith, now, rest)

-- `DetectVectorPairRun` accepts a word exactly if the pair before it starts inside the section,
-- `count` pairs fit, the first pair is a setup and a match for the first register, and each later
-- pair is one for the next register through the same address registers.
pub detect_vector_pair_run_iff :
    (word : ℕ → ℕ) (word_count i first_reg count : ℕ) (match : ℕ → ℕ → Bool)
    → 0 < count
    → (detect_vector_pair_run word word_count i first_reg count match ≡ true) ↔ (
        (1 ≤ i)
        × (i - 1 + count * 2 ≤ word_count)
        × (match (word i) first_reg ≡ true)
        × (is_addi (word (i - 1)) ≡ true)
        × ((j : ℕ)
            → 1 ≤ j
            → j < count
            → Pairs word match i first_reg (ra (word i)) (rb (word i)) j))
unfolding detect_vector_pair_run
detect_vector_pair_run_iff word word_count i first_reg count match pos = (
  (λ h. (
    ground arith,
    ground arith,
    ground arith,
    ground arith,
    λ j lo hi.
        pair_loop_sound word match i first_reg (ra (word i)) (rb (word i)) (count - 1) 1
          (ground arith) j lo (omega arith),
  )),
  (λ (inside, fits, first, setup, each).
      let rest =
        pair_loop_complete word match i first_reg (ra (word i)) (rb (word i)) (count - 1) 1
          (λ j lo hi. each j lo (omega arith)) in
      ground (arith, rest, inside, fits, first, setup)),
)
