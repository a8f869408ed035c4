-- ===== src/Emit/Arith.antt =====
-- The cases of `Recompiler::Recompile` for sums, differences, products and quotients.
use xenon_recomp.Emit.{
  Ref, xer, temp, s8, u8, s16, s32, u32, s64, u64, ca, plus, minus, times, divide, and_bits,
  or_bits, xor_bits, shift_right, less, greater, less_eq, greater_eq, complement, negate, field,
  flag, dec, hex, int, bin, un, cast, Stmt, set, set_flag, clear_line,
}
use xenon_recomp.Emit.Insn.{
  AddInst, inst_add, inst_addc, inst_adde, inst_addi, inst_addic, inst_addis, inst_addme,
  inst_addze, DivideInst, inst_dcbz, inst_dcbzl, inst_divd, inst_divdu, inst_divw, inst_divwu,
  inst_eqv, inst_extsb, inst_extsh, inst_extsw, MultiplyInst, inst_mulhw, inst_mulhwu, inst_mulld,
  inst_mulli, inst_mullw, inst_nand, inst_neg, inst_nop, inst_nor, inst_not, inst_or, inst_orc,
  inst_ori, inst_oris, SubtractInst, inst_subf, inst_subfc, inst_subfe, inst_subfic, inst_subfze,
  Insn, op_r, r_as, shifted16, compare_dot, x_address,
}
use xenon_recomp.Base.{◌-◌, ◌^◌, ◌==◌, if◌then◌else◌, List, [], ◌∷◌}

-- `ADD` to `ADDZE`.
unfoldable pub add_case : AddInst → Insn → List (Stmt Ref)
unfolding compare_dot
add_case inst_add i =
    set (op_r i 0) u64 (bin plus (r_as i 1 u64) (r_as i 2 u64)) ∷ compare_dot i s32
add_case inst_addc i =
    set temp u8 (bin less (bin plus (r_as i 1 u32) (r_as i 2 u32)) (r_as i 1 u32))
    ∷ set (op_r i 0) u64 (bin plus (r_as i 1 u64) (r_as i 2 u64))
    ∷ set_flag xer ca (field temp u8)
    ∷ compare_dot i s32
add_case inst_adde i =
    set temp u8 (
      bin or_bits (bin less (bin plus (r_as i 1 u32) (r_as i 2 u32)) (r_as i 1 u32))
        (bin less (bin plus (bin plus (r_as i 1 u32) (r_as i 2 u32)) (flag xer ca)) (flag xer ca)))
    ∷ set (op_r i 0) u64 (bin plus (bin plus (r_as i 1 u64) (r_as i 2 u64)) (flag xer ca))
    ∷ set_flag xer ca (field temp u8)
    ∷ compare_dot i s32
add_case inst_addi i =
    set (op_r i 0) s64 (
      if i.operands 1 == 0
      then int (i.operands 2)
      else bin plus (r_as i 1 s64) (int (i.operands 2)))
    ∷ []
add_case inst_addic i =
    set_flag xer ca (bin greater (r_as i 1 u32) (dec (2 ^ 32 - 1 - i.operands 2)))
    ∷ set (op_r i 0) s64 (bin plus (r_as i 1 s64) (int (i.operands 2)))
    ∷ compare_dot i s32
add_case inst_addis i =
    set (op_r i 0) s64 (
      if i.operands 1 == 0
      then int (shifted16 i 2)
      else bin plus (r_as i 1 s64) (int (shifted16 i 2)))
    ∷ []
add_case inst_addme i =
    set temp u64 (bin plus (bin plus (r_as i 1 u32) (flag xer ca)) (hex 0xFFFFFFFF))
    ∷ set_flag xer ca (bin shift_right (field temp u64) (dec 32))
    ∷ set (op_r i 0) u64 (field temp u32)
    ∷ compare_dot i s32
add_case inst_addze i =
    set temp s64 (bin plus (r_as i 1 s64) (flag xer ca))
    ∷ set_flag xer ca (bin less (field temp u32) (r_as i 1 u32))
    ∷ set (op_r i 0) s64 (field temp s64)
    ∷ compare_dot i s32

-- `DB16CYC` to `EXTSW`.
unfoldable pub divide_case : DivideInst → Insn → List (Stmt Ref)
unfolding compare_dot x_address
divide_case inst_dcbz i = clear_line (x_address i 0 1) 32 ∷ []
divide_case inst_dcbzl i = clear_line (x_address i 0 1) 128 ∷ []
divide_case inst_divd i = set (op_r i 0) s64 (bin divide (r_as i 1 s64) (r_as i 2 s64)) ∷ []
divide_case inst_divdu i =
    set (op_r i 0) u64 (bin divide (r_as i 1 u64) (r_as i 2 u64)) ∷ compare_dot i s32
divide_case inst_divw i =
    set (op_r i 0) s32 (bin divide (r_as i 1 s32) (r_as i 2 s32)) ∷ compare_dot i s32
divide_case inst_divwu i =
    set (op_r i 0) u32 (bin divide (r_as i 1 u32) (r_as i 2 u32)) ∷ compare_dot i s32
divide_case inst_eqv i =
    set (op_r i 0) u64 (un complement (bin xor_bits (r_as i 1 u64) (r_as i 2 u64)))
    ∷ compare_dot i s32
divide_case inst_extsb i = set (op_r i 0) s64 (r_as i 1 s8) ∷ compare_dot i s32
divide_case inst_extsh i = set (op_r i 0) s64 (r_as i 1 s16) ∷ compare_dot i s32
divide_case inst_extsw i = set (op_r i 0) s64 (r_as i 1 s32) ∷ compare_dot i s32
divide_case _ i = []

-- `MULHW` to `ORIS`.
unfoldable pub multiply_case : MultiplyInst → Insn → List (Stmt Ref)
unfolding compare_dot
multiply_case inst_mulhw i =
    set (op_r i 0) s64
      (bin shift_right (bin times (cast s64 (r_as i 1 s32)) (cast s64 (r_as i 2 s32))) (dec 32))
    ∷ []
multiply_case inst_mulhwu i =
    set (op_r i 0) u64
      (bin shift_right (bin times (cast u64 (r_as i 1 u32)) (cast u64 (r_as i 2 u32))) (dec 32))
    ∷ compare_dot i s32
multiply_case inst_mulld i = set (op_r i 0) s64 (bin times (r_as i 1 s64) (r_as i 2 s64)) ∷ []
multiply_case inst_mulli i = set (op_r i 0) s64 (bin times (r_as i 1 s64) (int (i.operands 2))) ∷ []
multiply_case inst_mullw i =
    set (op_r i 0) s64 (bin times (cast s64 (r_as i 1 s32)) (cast s64 (r_as i 2 s32)))
    ∷ compare_dot i s32
multiply_case inst_nand i =
    set (op_r i 0) u64 (un complement (bin and_bits (r_as i 1 u64) (r_as i 2 u64))) ∷ []
multiply_case inst_neg i = set (op_r i 0) s64 (un negate (r_as i 1 s64)) ∷ compare_dot i s32
multiply_case inst_nop i = []
multiply_case inst_nor i =
    set (op_r i 0) u64 (un complement (bin or_bits (r_as i 1 u64) (r_as i 2 u64))) ∷ []
multiply_case inst_not i = set (op_r i 0) u64 (un complement (r_as i 1 u64)) ∷ compare_dot i s32
multiply_case inst_or i =
    set (op_r i 0) u64 (bin or_bits (r_as i 1 u64) (r_as i 2 u64)) ∷ compare_dot i s32
multiply_case inst_orc i =
    set (op_r i 0) u64 (bin or_bits (r_as i 1 u64) (un complement (r_as i 2 u64))) ∷ []
multiply_case inst_ori i = set (op_r i 0) u64 (bin or_bits (r_as i 1 u64) (dec (i.operands 2))) ∷ []
multiply_case inst_oris i =
    set (op_r i 0) u64 (bin or_bits (r_as i 1 u64) (dec (shifted16 i 2))) ∷ []

-- `SUBF` to `TWLLEI`.
unfoldable pub subtract_case : SubtractInst → Insn → List (Stmt Ref)
unfolding compare_dot
subtract_case inst_subf i =
    set (op_r i 0) s64 (bin minus (r_as i 2 s64) (r_as i 1 s64)) ∷ compare_dot i s32
subtract_case inst_subfc i =
    set_flag xer ca (bin greater_eq (r_as i 2 u32) (r_as i 1 u32))
    ∷ set (op_r i 0) s64 (bin minus (r_as i 2 s64) (r_as i 1 s64))
    ∷ compare_dot i s32
subtract_case inst_subfe i =
    set temp u8 (
      bin or_bits
        (bin less (bin plus (un complement (r_as i 1 u32)) (r_as i 2 u32))
          (un complement (r_as i 1 u32)))
        (bin less (bin plus (bin plus (un complement (r_as i 1 u32)) (r_as i 2 u32)) (flag xer ca))
          (flag xer ca)))
    ∷ set (op_r i 0) u64
        (bin plus (bin plus (un complement (r_as i 1 u64)) (r_as i 2 u64)) (flag xer ca))
    ∷ set_flag xer ca (field temp u8)
    ∷ compare_dot i s32
subtract_case inst_subfic i =
    set_flag xer ca (bin less_eq (r_as i 1 u32) (dec (i.operands 2)))
    ∷ set (op_r i 0) s64 (bin minus (int (i.operands 2)) (r_as i 1 s64))
    ∷ []
subtract_case inst_subfze i =
    set temp u64 (un complement (r_as i 1 u32))
    ∷ set (op_r i 0) u64 (bin plus (field temp u64) (flag xer ca))
    ∷ set_flag xer ca (bin less (r_as i 0 u32) (field temp u32))
    ∷ compare_dot i s32
subtract_case _ i = []
