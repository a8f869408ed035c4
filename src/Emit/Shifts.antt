-- ===== src/Emit/Shifts.antt =====
-- `ComputeMask` and the cases of `Recompiler::Recompile` for rotations and shifts.
pub mod Mask
use xenon_recomp.Emit.{
  Ref, xer, temp, View, u8, s32, u32, s64, u64, ca, and_bits, or_bits, shift_left, shift_right,
  less, greater, differs, rotate_left32, rotate_left64, Expr, field, dec, hex, bin, pick, Stmt, set,
  set_flag, when,
}
use xenon_recomp.Emit.Insn.{
  RotateInst, inst_rldicl, inst_rldicr, inst_rldimi, inst_rlwimi, inst_rlwinm, inst_rotldi,
  inst_rotlw, inst_rotlwi, ShiftInst, inst_sld, inst_slw, inst_srad, inst_sradi, inst_sraw,
  inst_srawi, inst_srd, inst_srw, Insn, op_r, r_as, compare_dot,
}
use xenon_recomp.Base.{
  ℕ, ◌+◌, ◌-◌, ◌%◌, ◌^◌, leb, ◌==◌, if◌then◌else◌, List, [], ◌∷◌, ◌++◌, add32, sub32, bit_xor,
}

-- `ComputeMask`, in which `UINT64_MAX >> n` is `2 ^ (64 - n) - 1`.
unfoldable pub compute_mask : ℕ → ℕ → ℕ
compute_mask mstart mstop =
    let from = mstart % 64 in
    let to = mstop % 64 in
    let value = bit_xor (2 ^ (64 - from) - 1) (if leb 63 to then 0 else 2 ^ (64 - (to + 1)) - 1) in
    if leb from to then value else 2 ^ 64 - 1 - value

-- `RLDICL` to `ROTLWI`.
unfoldable pub rotate_case : RotateInst → Insn → List (Stmt Ref)
unfolding compare_dot
rotate_case inst_rldicl i =
    set (op_r i 0) u64 (
      bin and_bits (bin rotate_left64 (r_as i 1 u64) (dec (i.operands 2)))
        (hex (compute_mask (i.operands 3) 63)))
    ∷ compare_dot i s64
rotate_case inst_rldicr i =
    set (op_r i 0) u64 (
      bin and_bits (bin rotate_left64 (r_as i 1 u64) (dec (i.operands 2)))
        (hex (compute_mask 0 (i.operands 3))))
    ∷ compare_dot i s64
rotate_case inst_rldimi i =
    let mask = compute_mask (i.operands 3) (2 ^ 32 - 1 - i.operands 2) in
    set (op_r i 0) u64 (
      bin or_bits (bin and_bits (bin rotate_left64 (r_as i 1 u64) (dec (i.operands 2))) (hex mask))
        (bin and_bits (r_as i 0 u64) (hex (2 ^ 64 - 1 - mask))))
    ∷ []
rotate_case inst_rlwimi i =
    let mask = compute_mask (add32 (i.operands 3) 32) (add32 (i.operands 4) 32) in
    set (op_r i 0) u64 (
      bin or_bits (bin and_bits (bin rotate_left32 (r_as i 1 u32) (dec (i.operands 2))) (hex mask))
        (bin and_bits (r_as i 0 u64) (hex (2 ^ 64 - 1 - mask))))
    ∷ []
rotate_case inst_rlwinm i =
    set (op_r i 0) u64 (
      bin and_bits
        (bin rotate_left64 (bin or_bits (r_as i 1 u32) (bin shift_left (r_as i 1 u64) (dec 32)))
          (dec (i.operands 2)))
        (hex (compute_mask (add32 (i.operands 3) 32) (add32 (i.operands 4) 32))))
    ∷ compare_dot i s32
rotate_case inst_rotldi i =
    set (op_r i 0) u64 (bin rotate_left64 (r_as i 1 u64) (dec (i.operands 2))) ∷ compare_dot i s64
rotate_case inst_rotlw i =
    set (op_r i 0) u64 (bin rotate_left32 (r_as i 1 u32) (bin and_bits (r_as i 2 u8) (hex 0x1F)))
    ∷ compare_dot i s32
rotate_case inst_rotlwi i =
    set (op_r i 0) u64 (bin rotate_left32 (r_as i 1 u32) (dec (i.operands 2))) ∷ compare_dot i s32

-- `({0} < 0) & ({1} != 0)`, and the test for one bits that a shift right drops, by shifting back.
abbrev both_tests : Expr Ref → Expr Ref → Expr Ref
both_tests a b = bin and_bits a b

abbrev drops : Expr Ref → View → Expr Ref
drops a w =
    both_tests (bin less a (dec 0))
      (bin differs (bin shift_left (bin shift_right a (field temp w)) (field temp w)) a)

-- `SRAWI` up to the comparison.
unfoldable pub srawi_lines : Insn → List (Stmt Ref)
srawi_lines i =
    if i.operands 2 == 0
    then set_flag xer ca (dec 0) ∷ set (op_r i 0) s64 (r_as i 1 s32) ∷ []
    else set_flag xer ca (
        both_tests (bin less (r_as i 1 s32) (dec 0)) (
          bin differs
            (bin and_bits (r_as i 1 u32) (hex (compute_mask (sub32 64 (i.operands 2)) 63)))
            (dec 0)))
      ∷ set (op_r i 0) s64 (bin shift_right (r_as i 1 s32) (dec (i.operands 2)))
      ∷ []

-- `SLD` to `SRW`.
unfoldable pub shift_case : ShiftInst → Insn → List (Stmt Ref)
unfolding compare_dot srawi_lines
shift_case inst_sld i =
    set (op_r i 0) u64 (
      pick (bin and_bits (r_as i 2 u8) (hex 0x40)) (dec 0)
        (bin shift_left (r_as i 1 u64) (bin and_bits (r_as i 2 u8) (hex 0x7F))))
    ∷ []
shift_case inst_slw i =
    set (op_r i 0) u64 (
      pick (bin and_bits (r_as i 2 u8) (hex 0x20)) (dec 0)
        (bin shift_left (r_as i 1 u32) (bin and_bits (r_as i 2 u8) (hex 0x3F))))
    ∷ compare_dot i s32
shift_case inst_srad i =
    set temp u64 (bin and_bits (r_as i 2 u64) (hex 0x7F))
    ∷ when (bin greater (field temp u64) (hex 0x3F)) (set temp u64 (hex 0x3F))
    ∷ set_flag xer ca (drops (r_as i 1 s64) u64)
    ∷ set (op_r i 0) s64 (bin shift_right (r_as i 1 s64) (field temp u64))
    ∷ []
shift_case inst_sradi i =
    if i.operands 2 == 0
    then set_flag xer ca (dec 0) ∷ set (op_r i 0) s64 (r_as i 1 s64) ∷ []
    else set_flag xer ca (
        both_tests (bin less (r_as i 1 s64) (dec 0)) (
          bin differs
            (bin and_bits (r_as i 1 u64) (hex (compute_mask (sub32 64 (i.operands 2)) 63)))
            (dec 0)))
      ∷ set (op_r i 0) s64 (bin shift_right (r_as i 1 s64) (dec (i.operands 2)))
      ∷ []
shift_case inst_sraw i =
    set temp u32 (bin and_bits (r_as i 2 u32) (hex 0x3F))
    ∷ when (bin greater (field temp u32) (hex 0x1F)) (set temp u32 (hex 0x1F))
    ∷ set_flag xer ca (drops (r_as i 1 s32) u32)
    ∷ set (op_r i 0) s64 (bin shift_right (r_as i 1 s32) (field temp u32))
    ∷ compare_dot i s32
shift_case inst_srawi i = srawi_lines i ++ compare_dot i s32
shift_case inst_srd i =
    set (op_r i 0) u64 (
      pick (bin and_bits (r_as i 2 u8) (hex 0x40)) (dec 0)
        (bin shift_right (r_as i 1 u64) (bin and_bits (r_as i 2 u8) (hex 0x7F))))
    ∷ []
shift_case inst_srw i =
    set (op_r i 0) u64 (
      pick (bin and_bits (r_as i 2 u8) (hex 0x20)) (dec 0)
        (bin shift_right (r_as i 1 u32) (bin and_bits (r_as i 2 u8) (hex 0x3F))))
    ∷ compare_dot i s32
