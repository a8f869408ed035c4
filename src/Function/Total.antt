-- ===== src/Function/Total.antt =====
-- The loop of `Function::Analyze` ends, whatever the code is, and its position is the one that the
-- sanity check asks for.
use xenon_recomp.Base.{
  ℕ, zero, suc, ◌+◌, ◌*◌, ◌^◌, ◌≤◌, ◌<◌, ◌≡◌, refl, sym, subst, ◌∙◌, inl, inr, ◌⊎◌, ◌/◌, if-cases,
  if-elim, ==_iff, Bool, ◌||◌, some, List, [], ◌∷◌, length, All, Bool-cases, ltb, arith, ◌==◌,
}
use mathlib.Core.Option.{some-injective}
use native.Mathlib.Nat.{mul-le-mul_right}
use xenon_recomp.Function.{
  Block, Walk, Function, Outcome, done, fault, out_of_fuel, block, start, round, analyze_loop,
  analyze, finish, max_block_count,
}
use xenon_recomp.Function.Invariant.{IsOk, IsGood, IsAt, HasEntry, sum_rem}
use xenon_recomp.Function.Cover.{Covered, finish-Covered}
use xenon_recomp.Function.Rounds.{round-Advances}

step_mul : (n m k : ℕ) → n + 1 ≤ m → n * k + k ≤ m * k
step_mul n m k h = omega (arith, mul-le-mul_right {m = n + 1} {n = m} k h)

module _ (code : ℕ → ℕ) (decodes : ℕ → ℕ → Bool) (base size : ℕ) where
  -- The walks that the loop goes through: each round starts inside the region.
  pub data Reach : Walk → Type 0 where
    begin : Reach start
    next :
        {w w' : Walk} {i : ℕ} {s : List ℕ}
        → Reach w
        → w.stack ≡ i ∷ s
        → w.pos * 4 ≤ size
        → round code decodes base size i s w.blocks w.pos ≡ some w'
        → Reach w'

  start-IsGood : IsGood size start.blocks start.stack
  start-IsGood = record {
    all_ok = (record { aligned_base = refl; aligned_size = refl; bounded = omega arith }, tt);
    live = (omega arith, tt);
    entry = refl;
  }

  start-IsAt : IsAt start
  start-IsAt = (block 0 0, refl, omega arith)

  module _ (low : 2 ^ 25 ≤ base) (high : base + size + 2 ^ 26 < 2 ^ 64) where
    round-keeps :
        (i : ℕ) (s : List ℕ) (blocks : List Block) (pos : ℕ) (w' : Walk)
        → IsGood size blocks (i ∷ s) × IsAt (record { blocks = blocks; stack = i ∷ s; pos = pos })
        → pos * 4 ≤ size
        → round code decodes base size i s blocks pos ≡ some w'
        → IsGood size w'.blocks w'.stack × IsAt w'
    round-keeps i s blocks pos w' h inside ran =
        let a = round-Advances code decodes base size low high i blocks s pos h.0 h.1 inside in
        subst (λ w. IsGood size w.blocks w.stack × IsAt w)
          (some-injective _ _ (sym a.returns ∙ ran)) (a.good, a.at)

    Reach-IsGood : {w : Walk} → Reach w → IsGood size w.blocks w.stack × IsAt w
    Reach-IsGood begin = (start-IsGood, start-IsAt)
    Reach-IsGood (next {w} {w'} {i} {s} r e inside ran) =
        round-keeps i s w.blocks w.pos w'
          (subst (λ t. IsGood size w.blocks t × IsAt (record w { stack = t })) e (Reach-IsGood r))
          inside ran

  -- In each walk that the loop of `Analyze` goes through, the position is the end of the block on
  -- top of the stack, as the `assert` of the sanity check says, and every index on the stack
  -- names a block. The region is one that no branch target of the walk can wrap around.
  pub Reach-IsAt :
      2 ^ 25 ≤ base
      → base + size + 2 ^ 26 < 2 ^ 64
      → {w : Walk} → Reach w
      → IsAt w × All (λ i. i < length w.blocks) w.stack
  Reach-IsAt low high r = let g = Reach-IsGood low high r in (g.1, g.0.live)

  -- The loop returns blocks that are whole words and start at most one branch past the region.
  abbrev pub Ends : Outcome (List Block) → Type 0
  Ends (done blocks) = All (IsOk size) blocks × HasEntry blocks
  Ends _ = ⊥

  module _ (low : 2 ^ 25 ≤ base) (high : base + size + 2 ^ 26 < 2 ^ 64) (limit : ℕ) where
    below_limit :
        (n : ℕ) → n ≤ limit + 2 → n * (size + 11) + (size + 11) ≤ (limit + 3) * (size + 11)
    below_limit n h = step_mul n (limit + 3) (size + 11) (omega arith)

    analyze_loop-Ends :
        (fuel : ℕ) (blocks : List Block) (stack : List ℕ) (pos : ℕ)
        → IsGood size blocks stack
        → IsAt (record { blocks = blocks; stack = stack; pos = pos })
        → length blocks ≤ limit + 2
        → sum_rem size blocks stack + (limit + 3) * (size + 11) < fuel + length blocks * (size + 11)
        → Ends (
            analyze_loop code decodes base size limit fuel
              (record { blocks = blocks; stack = stack; pos = pos }))
    unfolding analyze_loop
    analyze_loop-Ends zero blocks stack pos g at few enough =
        absurd (omega (arith, below_limit (length blocks) few))
    analyze_loop-Ends (suc fuel) blocks [] pos g at few enough =
        if-elim Ends (ltb size (pos * 4) || ltb limit (length blocks)) (g.all_ok, g.entry)
          (g.all_ok, g.entry)
    analyze_loop-Ends (suc fuel) blocks (i ∷ s) pos g at few enough =
        if-cases Ends (ltb size (pos * 4) || ltb limit (length blocks))
          (λ stops. (g.all_ok, g.entry))
          λ runs.
            let a =
              round-Advances code decodes base size low high i blocks s pos g at (ground arith) in
            rw (a.returns, analyze_loop)
              (analyze_loop-Ends fuel a.out.blocks a.out.stack a.out.pos a.good a.at
                (ground (arith, a.two)) (omega (arith, a.falls)))

  finished :
      base + size + 2 ^ 26 < 2 ^ 64
      → (o : Outcome (List Block)) → Ends o
      → (fn : Function) × (elim o as (λ _. Outcome Function) [
        | done blocks ↦ done (finish base size blocks)
        | fault ↦ fault
        | out_of_fuel ↦ out_of_fuel
      ]
          ≡ done fn)
        × (fn.base ≡ base)
        × (fn.size ≤ (size + 3) / 4 * 4)
        × ((x : ℕ) → x < fn.size → Covered x fn.blocks)
  unfolding finish
  finished high (done blocks) e = (
    finish base size blocks,
    refl,
    refl,
    ground arith,
    finish-Covered size (omega arith) base blocks e.0 e.1,
  )
  finished high fault e = absurd e
  finished high out_of_fuel e = absurd e

  -- `Analyze` ends on every region of code that the wrap cannot reach: a number of rounds
  -- proportional to the block limit times the size is enough. The size that it reports is at most
  -- that of the region in whole words, and every offset below it lies in one of the blocks kept;
  -- or it is that of the two words of a shifted-pointer tail call.
  pub analyze_total :
      2 ^ 25 ≤ base
      → base + size + 2 ^ 26 < 2 ^ 64
      → (fuel : ℕ) → (max_block_count + 3) * (size + 11) ≤ fuel
      → (fn : Function) × (analyze code decodes fuel size base ≡ done fn)
        × (fn.base ≡ base)
        × ((fn.size ≤ (size + 3) / 4 * 4) × ((x : ℕ) → x < fn.size → Covered x fn.blocks)
            ⊎ (code 1 ≡ 0x04000048) × (fn.size ≡ 8))
  unfolding analyze
  analyze_total low high fuel enough = elim (Bool-cases (code 1 == 0x04000048)) [
    | inl tail ↦ (
      record { base = base; size = 8; blocks = [] },
      rw tail,
      refl,
      inr ((==_iff _ _).0 tail, refl),
    )
    | inr body ↦
        let looped =
          analyze_loop-Ends low high max_block_count fuel (block 0 0 ∷ []) (0 ∷ []) 0 start-IsGood
            start-IsAt (omega arith) (omega arith) in
        let f = finished high _ looped in rw body (f.0, f.1, f.2, inl (f.3, f.4))
  ]
