-- ===== src/Function/Rounds.antt =====
-- One round of the loop of `Function::Analyze` keeps the invariant and lowers the measure. The
-- region lies high enough that no branch target below it wraps, and no end of a branch overflows.
use xenon_recomp.Base.{
  ℕ, ◌+◌, ◌*◌, ◌^◌, ◌≤◌, ◌<◌, ◌≡◌, refl, Bool, not, ◌&&◌, ◌||◌, some, List, ◌∷◌, get_elem?, set,
  All-get_elem?, length-set, set-set, get_elem?-set_self, if-elim, leb, ◌==◌, add64, size_max,
  arith,
}
use xenon_recomp.Ppc.{byte_swap32, op, xop, is_link, op_bc, op_b, op_ctr}
use xenon_recomp.Function.{
  Block, restore_data, fork_paths, conditional_branch, immediate_branch, return_branch, scan_word,
  round,
}
use xenon_recomp.Function.Invariant.{
  IsOk, IsGood, IsAt, sum_rem, restore_data-Goes, IsGood-set, sum_rem-set,
}
use xenon_recomp.Function.Branches.{
  Advances, Advances-Goes, restored, return_branch-Advances, immediate_branch-Advances,
  fork_paths-Advances,
}

module _ (code : ℕ → ℕ) (decodes : ℕ → ℕ → Bool) (base size : ℕ) (low : 2 ^ 25 ≤ base)
    (high : base + size + 2 ^ 26 < 2 ^ 64) where
  module _ (i : ℕ) (b : Block) (blocks : List Block) (s : List ℕ) (pos : ℕ)
      (found : get_elem? blocks i ≡ some b) (good : IsGood size blocks (i ∷ s))
      (is_at : pos * 4 ≡ b.base + b.size) (inside : pos * 4 ≤ size) where
    abbrev was_ok : IsOk size b
    was_ok = All-get_elem? (IsOk size) blocks i good.all_ok found

    abbrev tail_good : IsGood size blocks s
    tail_good = record { all_ok = good.all_ok; live = good.live.1; entry = good.entry }

    module _ (c : Block) (same : c.base ≡ b.base) (ends : c.base + c.size ≡ b.base + b.size + 4)
        (ok : IsOk size c) where
      set-sum_rem : sum_rem size (set blocks i c) s ≤ sum_rem size blocks s
      set-sum_rem = sum_rem-set size blocks i b c s found (omega arith)

      forks :
          (insn : ℕ)
          → Advances size blocks
              (i ∷ s)
              (fork_paths code decodes base size (add64 base (pos * 4)) insn (set blocks i c) s pos)
      forks =
          fork_paths-Advances code decodes base size low high i b c blocks (set blocks i c) s pos
            found good is_at inside ends ok (IsGood-set size blocks i b c s found same tail_good ok)
            (length-set blocks i c) set-sum_rem

      jumps :
          (insn : ℕ)
          → Advances size blocks (i ∷ s) (
              immediate_branch code decodes base size
                (add64 base (pos * 4))
                insn
                c
                (set blocks i c)
                s
                pos)
      jumps =
          immediate_branch-Advances code decodes base size low high i b c blocks (set blocks i c) s
            pos found good is_at inside ends ok
            (IsGood-set size blocks i b c s found same tail_good ok) (length-set blocks i c)
            set-sum_rem

      returns_or_falls :
          (insn : ℕ)
          → Advances size blocks (i ∷ s) (
              return_branch code decodes base size
                (add64 base (pos * 4))
                insn
                (set blocks i c)
                s
                pos)
      returns_or_falls =
          return_branch-Advances code decodes base size low high i b c blocks (set blocks i c) s pos
            found good is_at inside ends ok (IsGood-set size blocks i b c s found same tail_good ok)
            (length-set blocks i c) set-sum_rem

      closes : Advances size blocks (i ∷ s) (restore_data (set blocks i c) s pos)
      closes =
          restored code decodes base size low high i b c blocks (set blocks i c) s pos found good
            is_at inside ends ok (IsGood-set size blocks i b c s found same tail_good ok)
            (length-set blocks i c) set-sum_rem

      here : get_elem? (set blocks i c) i ≡ some c
      here = get_elem?-set_self blocks i c good.live.0

      goes_on :
          Advances size blocks
            (i ∷ s)
            (some (record { blocks = set blocks i c; stack = i ∷ s; pos = pos + 1 }))
      goes_on = record {
        out = record { blocks = set blocks i c; stack = i ∷ s; pos = pos + 1 };
        returns = refl;
        good = IsGood-set size blocks i b c (i ∷ s) found same good ok;
        at = (c, here, omega arith);
        two = omega (arith, length-set blocks i c);
        falls = rw (here, found, length-set blocks i c) (omega (arith, set-sum_rem));
      }

    grown_block : ℕ → Block
    grown_block p = record b { size = add64 b.size 4; projected_size = p }

    grown-base : (p : ℕ) → (grown_block p).base ≡ b.base
    unfolding grown_block
    grown-base p = refl

    grown-ends : (p : ℕ) → (grown_block p).base + (grown_block p).size ≡ b.base + b.size + 4
    unfolding grown_block
    grown-ends p = omega arith

    grown-IsOk : (p : ℕ) → IsOk size (grown_block p)
    unfolding grown_block
    grown-IsOk p = record {
      aligned_base = was_ok.aligned_base;
      aligned_size = omega (arith, was_ok.aligned_size);
      bounded = omega arith;
    }

    scan_word-Advances :
        Advances size blocks (i ∷ s) (scan_word code decodes base size i b blocks s pos)
    unfolding scan_word conditional_branch grown_block
    scan_word-Advances =
        let p = b.projected_size in
        let Goal = Advances size blocks (i ∷ s) in
        let on = goes_on (grown_block p) (grown-base p) (grown-ends p) (grown-IsOk p) in
        let shut = closes (grown_block p) (grown-base p) (grown-ends p) (grown-IsOk p) in
        let q = size_max in
        let parts : Goal (
            conditional_branch code decodes base size (add64 base (pos * 4))
              (byte_swap32 (code pos)) i (grown_block p) (set blocks i (grown_block p)) s pos) =
          rw (set-set blocks i (grown_block p) (grown_block q))
            (forks (grown_block q) (grown-base q) (grown-ends q) (grown-IsOk q) _) in
        let insn = byte_swap32 (code pos) in
        if-elim Goal (op insn == op_bc) (if-elim Goal (is_link insn) on parts) (
          if-elim Goal
            (op insn == op_b
              || insn == 0
              || op insn == op_ctr && (xop insn == 16 || xop insn == 528))
            (if-elim Goal (is_link insn) on (
              if-elim Goal (op insn == op_b)
                (jumps (grown_block p) (grown-base p) (grown-ends p) (grown-IsOk p) insn)
                (if-elim Goal (op insn == op_ctr)
                  (returns_or_falls (grown_block p) (grown-base p) (grown-ends p) (grown-IsOk p)
                    insn)
                  shut)))
            (if-elim Goal (decodes (code pos) (add64 base (pos * 4))) on shut))

  -- The check of the projected size closes the block without growing it.
  pub round-Advances :
      (i : ℕ) (blocks : List Block) (s : List ℕ) (pos : ℕ)
      → IsGood size blocks (i ∷ s)
      → IsAt (record { blocks = blocks; stack = i ∷ s; pos = pos })
      → pos * 4 ≤ size
      → Advances size blocks (i ∷ s) (round code decodes base size i s blocks pos)
  unfolding round
  round-Advances i blocks s pos good (b, found, is_at) inside =
      rw (found, round)
        (if-elim (Advances size blocks (i ∷ s))
          (not (b.projected_size == size_max) && leb b.projected_size b.size)
          (Advances-Goes size blocks (i ∷ s) blocks s _
            (restore_data-Goes size blocks s pos (omega arith)
              (record { all_ok = good.all_ok; live = good.live.1; entry = good.entry }))
            (omega arith) (rw found (omega arith)))
          (scan_word-Advances i b blocks s pos found good is_at inside))
