-- ===== src/Emit/Moves.antt =====
-- The cases of `Recompiler::Recompile` for moves to and from special registers.
use xenon_recomp.Emit.{
  Ref, crf, ctr, xer, link, msr, s32, u32, u64, Flag, lt, gt, eq, so, ov, ca, and_bits, or_bits,
  shift_left, differs, complement, name, field, flag, dec, hex, rdtsc, from_host, bin, un, pick,
  Stmt, set, set_flag, set_name, or_with, store_fpscr,
}
use xenon_recomp.Emit.Insn.{
  MoveInst, inst_mfcr, inst_mffs, inst_mflr, inst_mfmsr, inst_mfocrf, inst_mftb, inst_mr, inst_mtcr,
  inst_mtctr, inst_mtfsf, inst_mtlr, inst_mtmsrd, inst_mtxer, Insn, op_r, op_f, r_as, compare_dot,
}
use xenon_recomp.Emit.Config.{Config}
use xenon_recomp.Base.{ℕ, zero, suc, ◌-◌, ◌/◌, ◌%◌, ◌^◌, ◌==◌, if◌then◌else◌, List, [], ◌∷◌}

-- The flags of a condition register field in the order of its bits, `fields` of `MFCR` and `MTCR`.
abbrev pub cr_fields : List Flag
cr_fields = lt ∷ gt ∷ eq ∷ so ∷ []

-- `1u << (31 - i)` for bit `i`.
abbrev pub cr_bit : ℕ → ℕ
cr_bit i = 2 ^ (31 - i)

-- `crBit`.
unfoldable pub cr_flag : ℕ → Flag
cr_flag index =
    let k = index % 4 in if k == 0 then lt else if k == 1 then gt else if k == 2 then eq else so

-- The loop of `MFCR` from bit `i` on: the first bit is set, the others are or-ed.
unfoldable pub mfcr_loop : Insn → ℕ → ℕ → List (Stmt Ref)
unfolding cr_flag
mfcr_loop i k zero = []
mfcr_loop i k (suc left) =
    let bit = pick (flag (crf (k / 4)) (cr_flag k)) (hex (cr_bit k)) (dec 0) in
    let line = if k == 0 then set (op_r i 0) u64 bit else or_with (op_r i 0) u64 bit in
    line ∷ mfcr_loop i (suc k) left

-- The loop of `MTCR`.
unfoldable pub mtcr_loop : Insn → ℕ → ℕ → List (Stmt Ref)
unfolding cr_flag
mtcr_loop i k zero = []
mtcr_loop i k (suc left) =
    set_flag (crf (k / 4)) (cr_flag k)
      (bin differs (bin and_bits (r_as i 0 u32) (hex (cr_bit k))) (dec 0))
    ∷ mtcr_loop i (suc k) left

-- One flag that `MTXER` sets.
abbrev xer_flag : Insn → Flag → ℕ → Stmt Ref
xer_flag i f m = set_flag xer f (bin differs (bin and_bits (r_as i 0 u64) (hex m)) (dec 0))

-- `MFCR` to `MTXER`.
unfoldable pub move_case : Config → MoveInst → Insn → List (Stmt Ref)
unfolding compare_dot mfcr_loop mtcr_loop
move_case c inst_mfcr i = mfcr_loop i 0 32
move_case c inst_mffs i = set (op_f i 0) u64 from_host ∷ []
move_case c inst_mflr i = if c.skip_lr then [] else set (op_r i 0) u64 (name link) ∷ []
move_case c inst_mfmsr i = if c.skip_msr then [] else set (op_r i 0) u64 (name msr) ∷ []
move_case c inst_mfocrf i =
    set (op_r i 0) u64 (
      bin or_bits
        (bin or_bits
          (bin or_bits (bin shift_left (flag (crf 6) lt) (dec 7))
            (bin shift_left (flag (crf 6) gt) (dec 6)))
          (bin shift_left (flag (crf 6) eq) (dec 5)))
        (bin shift_left (flag (crf 6) so) (dec 4)))
    ∷ []
move_case c inst_mftb i = set (op_r i 0) u64 rdtsc ∷ []
move_case c inst_mr i = set (op_r i 0) u64 (r_as i 1 u64) ∷ compare_dot i s32
move_case c inst_mtcr i = mtcr_loop i 0 32
move_case c inst_mtctr i = set ctr u64 (r_as i 0 u64) ∷ []
move_case c inst_mtfsf i = store_fpscr (field (op_f i 1) u32) ∷ []
move_case c inst_mtlr i = if c.skip_lr then [] else set_name link (r_as i 0 u64) ∷ []
move_case c inst_mtmsrd i =
    if c.skip_msr
    then []
    else set_name msr (
        bin or_bits (bin and_bits (r_as i 0 u32) (hex 0x8020))
          (bin and_bits (name msr) (un complement (hex 0x8020))))
      ∷ []
move_case c inst_mtxer i =
    xer_flag i so 0x80000000 ∷ xer_flag i ov 0x40000000 ∷ xer_flag i ca 0x20000000 ∷ []
