-- ===== src/Function/Cover.antt =====
-- What follows the loop of `Function::Analyze`: the kept blocks cover the reported size.
use xenon_recomp.Base.{
  ℕ, ◌+◌, ◌%◌, ◌^◌, ◌≤◌, ◌<◌, ◌≡◌, ◌⊎◌, inl, inr, false, if◌then◌else◌, if-cases, if-elim, ltb, leb,
  List, [], ◌∷◌, length, All, arith, dec_lt,
}
use xenon_recomp.Function.{Block, sort_blocks, insert_block, cut_gap, contiguous, furthest, finish}
use xenon_recomp.Function.Invariant.{IsOk, HasEntry}

-- The offset lies in one of the blocks.
abbrev pub Covered : ℕ → List Block → Type 0
Covered x [] = ⊥
Covered x (b ∷ bs) = (b.base ≤ x) × (x < b.base + b.size) ⊎ Covered x bs

-- No offset from `low` up to the furthest end is left out.
abbrev pub Covers : ℕ → List Block → Type 0
Covers low bs = (x : ℕ) → low ≤ x → x < furthest bs → Covered x bs

module _ (size : ℕ) (fits : size + 2 ^ 25 + 4 < 2 ^ 64) where
  cut_gap-Covers :
      (b : Block) (bs : List Block)
      → IsOk size b
      → All (IsOk size) bs
      → Covers b.base (cut_gap b bs)
  unfolding cut_gap furthest
  cut_gap-Covers b [] o os = λ x lo hi. inl (omega (arith, o.bounded))
  cut_gap-Covers b (c ∷ cs) o os =
      if-cases (Covers b.base) (leb c.base ((b.base + b.size) % 2 ^ 64))
        (λ joined x lo hi. elim (dec_lt x (b.base + b.size)) [
          | yes here ↦ inl (lo, here)
          | no past ↦ inr (
              cut_gap-Covers c cs os.0 os.1 x (ground (arith, o.bounded))
                (ground (arith, o.bounded)))
        ])
        (λ gap x lo hi. inl (ground (arith, o.bounded)))

  insert_block-All :
      (b : Block) (bs : List Block)
      → IsOk size b
      → All (IsOk size) bs
      → All (IsOk size) (insert_block b bs)
  unfolding insert_block
  insert_block-All b [] o os = (o, tt)
  insert_block-All b (c ∷ cs) o os =
      if-elim (All (IsOk size)) (leb b.base c.base) (o, os) (os.0, insert_block-All b cs o os.1)

  sort_blocks-All : (bs : List Block) → All (IsOk size) bs → All (IsOk size) (sort_blocks bs)
  unfolding sort_blocks
  sort_blocks-All [] os = tt
  sort_blocks-All (b ∷ bs) os = insert_block-All b (sort_blocks bs) os.0 (sort_blocks-All bs os.1)

  insert_block-HasEntry : (b : Block) (bs : List Block) → b.base ≡ 0 → HasEntry (insert_block b bs)
  unfolding insert_block
  insert_block-HasEntry b [] e = e
  insert_block-HasEntry b (c ∷ cs) e =
      if-cases HasEntry (leb b.base c.base) (λ first. e) (λ later. ground arith)

  sort_blocks-HasEntry : (bs : List Block) → HasEntry bs → HasEntry (sort_blocks bs)
  unfolding sort_blocks
  sort_blocks-HasEntry [] e = absurd e
  sort_blocks-HasEntry (b ∷ bs) e = insert_block-HasEntry b (sort_blocks bs) e

  contiguous-Covers :
      (bs : List Block) → All (IsOk size) bs → HasEntry bs → Covers 0 (contiguous bs)
  unfolding contiguous
  contiguous-Covers [] os e x lo hi = e
  contiguous-Covers (b ∷ bs) os e x lo hi = cut_gap-Covers b bs os.0 os.1 x (omega arith) hi

  single-Covers :
      (bs : List Block) → All (IsOk size) bs → HasEntry bs → ltb 1 (length bs) ≡ false → Covers 0 bs
  unfolding furthest
  single-Covers [] os e short x lo hi = absurd e
  single-Covers (b ∷ []) os e short x lo hi = inl (ground (arith, os.0.bounded))
  single-Covers (b ∷ c ∷ bs) os e short x lo hi = ground arith

  -- The reported function leaves no gap: each offset below its size lies in a kept block.
  pub finish-Covered :
      (base : ℕ) (bs : List Block)
      → All (IsOk size) bs
      → HasEntry bs
      → (x : ℕ) → x < (finish base size bs).size
      → Covered x (finish base size bs).blocks
  unfolding finish
  finish-Covered base bs os e x below = covers x (omega arith) (ground arith)
    where
      covers : Covers 0 (if ltb 1 (length bs) then contiguous (sort_blocks bs) else bs)
      covers =
          if-cases (Covers 0) (ltb 1 (length bs))
            (λ many.
              contiguous-Covers (sort_blocks bs) (sort_blocks-All bs os)
                (sort_blocks-HasEntry bs e))
            (single-Covers bs os e)
