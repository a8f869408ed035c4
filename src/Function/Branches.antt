-- ===== src/Function/Branches.antt =====
-- The branches of a round of `Function::Analyze` keep the invariant and lower the measure.
use xenon_recomp.Base.{
  ℕ, ◌+◌, ◌*◌, ◌^◌, ◌≤◌, ◌<◌, ◌≡◌, refl, inl, inr, Bool, true, ◌&&◌, Option, none, some, List, ◌∷◌,
  length, get_elem?, Option-cases, if-elim, if-cases, ltb→le, ltb, leb, add64, sub64, size_max,
  arith,
}
use xenon_recomp.Ppc.{
  branch_bd, branch_bi, branch_bd-mod, branch_bi-mod, branch_bi_range, branch_bi-lt,
}
use xenon_recomp.Function.{
  Block, Walk, block, restore_data, open_block, search_block, fork_paths, immediate_branch,
  return_branch,
}
use xenon_recomp.Function.Invariant.{
  IsOk, IsGood, IsAt, Opens, Goes, sum_rem, Opens-weaken, Opens-none, Opens-trans, open_block-Opens,
  open_new-Opens, restore_data-Goes,
}

-- A round from the given blocks and stack succeeds, keeps the invariant, opens at most two blocks
-- and lowers what is left, with `size + 11` for each block opened.
pub record Advances (size : ℕ) (blocks : List Block) (stack : List ℕ) (r : Option Walk)
    : Type 0 where
  pub out : Walk
  pub returns : r ≡ some out
  pub good : IsGood size out.blocks out.stack
  pub at : IsAt out
  pub two : length out.blocks ≤ length blocks + 2
  pub falls :
      sum_rem size out.blocks out.stack + length blocks * (size + 11)
      < sum_rem size blocks stack + length out.blocks * (size + 11)

pub Advances-Goes :
    (size : ℕ) (blocks : List Block) (stack : List ℕ) (bs : List Block) (s : List ℕ)
    (r : Option Walk)
    → Goes size bs s r
    → length bs ≤ length blocks + 2
    → sum_rem size bs s + length blocks * (size + 11)
      < sum_rem size blocks stack + length bs * (size + 11)
    → Advances size blocks stack r
Advances-Goes size blocks stack bs s r g two falls = record {
  out = g.out;
  returns = g.returns;
  good = g.good;
  at = g.at;
  two = rw g.same_blocks two;
  falls = rw (g.same_blocks, g.same_stack) falls;
}

module _ (code : ℕ → ℕ) (decodes : ℕ → ℕ → Bool) (base size : ℕ) (low : 2 ^ 25 ≤ base)
    (high : base + size + 2 ^ 26 < 2 ^ 64) where
  -- The block `i` of the old blocks, grown by the word at `pos`, which lies in the region.
  module _ (i : ℕ) (b cur : Block) (blocks grown : List Block) (s : List ℕ) (pos : ℕ)
      (found : get_elem? blocks i ≡ some b) (good : IsGood size blocks (i ∷ s))
      (is_at : pos * 4 ≡ b.base + b.size) (inside : pos * 4 ≤ size)
      (ends : cur.base + cur.size ≡ b.base + b.size + 4) (ok : IsOk size cur)
      (is_grown : IsGood size grown s) (same_length : length grown ≡ length blocks)
      (less : sum_rem size grown s ≤ sum_rem size blocks s) where
    -- Closing the block lowers what is left at least by one.
    closed_less : sum_rem size grown s < sum_rem size blocks (i ∷ s)
    closed_less = rw found (omega arith)

    pub restored : Advances size blocks (i ∷ s) (restore_data grown s pos)
    restored =
        Advances-Goes size blocks (i ∷ s) grown s _
          (restore_data-Goes size grown s pos (omega arith) is_grown) (omega arith)
          (rw same_length (omega (arith, closed_less)))

    opened :
        (r : List Block × List ℕ)
        → Opens 2 size grown s r
        → Advances size blocks (i ∷ s) (restore_data r.0 r.1 pos)
    opened r o =
        Advances-Goes size blocks (i ∷ s) r.0 r.1 _
          (restore_data-Goes size r.0 r.1 pos (omega arith) o.good) (omega (arith, o.most))
          (rw same_length at (paid o.paid))
      where
        paid :
            sum_rem size r.0 r.1 + length grown * (size + 11)
              ≤ sum_rem size grown s + length r.0 * (size + 11)
            → sum_rem size r.0 r.1 + length grown * (size + 11)
              < sum_rem size blocks (i ∷ s) + length r.0 * (size + 11)
        paid h = omega (arith, closed_less)

    -- The block at `pos` ends there, so `lBase` is the next word.
    next_word : sub64 (add64 base (pos * 4)) base + 4 ≡ pos * 4 + 4
    next_word = omega arith

    left-IsOk :
        (p : ℕ)
        → IsOk size (record {
          base = add64 (sub64 (add64 base (pos * 4)) base) 4;
          size = 0;
          projected_size = p;
        })
    left-IsOk p = record { aligned_base = omega arith; aligned_size = refl; bounded = omega arith }

    pub return_branch-Advances :
        (insn : ℕ)
        → Advances size blocks
            (i ∷ s)
            (return_branch code decodes base size (add64 base (pos * 4)) insn grown s pos)
    unfolding return_branch
    return_branch-Advances insn =
        if-elim (Advances size blocks (i ∷ s)) _
          (opened _
            (Opens-weaken (open_new-Opens base size grown s _ is_grown (left-IsOk size_max))))
          restored

    -- A branch that does not go below the function lands at most 2 ^ 25 bytes behind the region.
    target-IsOk :
        (insn p : ℕ)
        → base ≤ add64 (add64 base (pos * 4)) (branch_bi insn)
        → IsOk size (record {
          base = sub64 (add64 (add64 base (pos * 4)) (branch_bi insn)) base;
          size = 0;
          projected_size = p;
        })
    target-IsOk insn p above = record {
      aligned_base = omega (arith, branch_bi-mod insn);
      aligned_size = refl;
      bounded = omega (arith, branch_bi_range insn, branch_bi-lt insn);
    }

    pub immediate_branch-Advances :
        (insn : ℕ)
        → Advances size blocks
            (i ∷ s)
            (immediate_branch code decodes base size (add64 base (pos * 4)) insn cur grown s pos)
    unfolding immediate_branch
    immediate_branch-Advances insn =
        if-cases (Advances size blocks (i ∷ s)) _ (λ below. restored)
          (λ above. chased _ (ltb→le _ _ above))
      where
        dest : ℕ
        dest = add64 (add64 base (pos * 4)) (branch_bi insn)

        chased :
            (p : ℕ)
            → base ≤ dest
            → Advances size blocks (i ∷ s) (elim (search_block base grown dest) [
              | none ↦
                  restore_data
                    (open_block grown s
                      (record { base = sub64 dest base; size = 0; projected_size = p })).0
                    (open_block grown s
                      (record { base = sub64 dest base; size = 0; projected_size = p })).1
                    pos
              | some _ ↦ restore_data grown s pos
            ])
        chased p above = elim (Option-cases (search_block base grown dest)) [
          | inl e ↦ rw e (
              opened _ (
                Opens-weaken (open_block-Opens size grown s _ is_grown (target-IsOk insn p above))))
          | inr (j, e) ↦ rw e restored
        ]

    right-IsOk :
        (insn : ℕ)
        → (leb base (add64 (add64 base (pos * 4)) (branch_bd insn))
            && ltb (add64 (add64 base (pos * 4)) (branch_bd insn)) (add64 base size))
          ≡ true
        → IsOk size (block (sub64 (add64 (add64 base (pos * 4)) (branch_bd insn)) base) 0)
    right-IsOk insn h = record {
      aligned_base = ground (arith, branch_bd-mod insn);
      aligned_size = refl;
      bounded = ground arith;
    }

    pub fork_paths-Advances :
        (insn : ℕ)
        → Advances size blocks
            (i ∷ s)
            (fork_paths code decodes base size (add64 base (pos * 4)) insn grown s pos)
    unfolding fork_paths
    fork_paths-Advances insn =
        let left = open_new-Opens base size grown s _ is_grown (left-IsOk _) in
        opened _ (
          Opens-trans 1 1 size grown s _ _ left (
            if-cases (Opens 1 size _ _) _
              (λ inside. open_new-Opens base size _ _ _ left.good (right-IsOk insn inside))
              (λ outside. Opens-none size _ _ left.good)))
