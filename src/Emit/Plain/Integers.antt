-- ===== src/Emit/Plain/Integers.antt =====
-- The lines of integer arithmetic only compute.
use xenon_recomp.Emit.{Ref, s32, s64, Stmt}
use xenon_recomp.Emit.Insn.{
  AddInst, inst_add, inst_addc, inst_adde, inst_addi, inst_addic, inst_addis, inst_addme,
  inst_addze, AndInst, inst_and, inst_andc, inst_andi, inst_andis, inst_attn, CompareInst,
  inst_cctpl, inst_cctpm, inst_clrldi, inst_clrlwi, inst_cmpd, inst_cmpdi, inst_cmpld, inst_cmpldi,
  inst_cmplw, inst_cmplwi, inst_cmpw, inst_cmpwi, inst_cntlzd, inst_cntlzw, DivideInst,
  inst_db16cyc, inst_dcbf, inst_dcbt, inst_dcbtst, inst_dcbz, inst_dcbzl, inst_divd, inst_divdu,
  inst_divw, inst_divwu, inst_eieio, inst_eqv, inst_extsb, inst_extsh, inst_extsw, MultiplyInst,
  inst_mulhw, inst_mulhwu, inst_mulld, inst_mulli, inst_mullw, inst_nand, inst_neg, inst_nop,
  inst_nor, inst_not, inst_or, inst_orc, inst_ori, inst_oris, RotateInst, inst_rldicl, inst_rldicr,
  inst_rldimi, inst_rlwimi, inst_rlwinm, inst_rotldi, inst_rotlw, inst_rotlwi, ShiftInst, inst_sld,
  inst_slw, inst_srad, inst_sradi, inst_sraw, inst_srawi, inst_srd, inst_srw, SubtractInst,
  inst_subf, inst_subfc, inst_subfe, inst_subfic, inst_subfze, inst_sync, inst_tdlgei, inst_tdllei,
  inst_twi, inst_twlgei, inst_twllei, XorInst, inst_xor, inst_xori, inst_xoris, Insn, compare_dot,
  ea_from_d, ea_from_x, update_base,
}
use xenon_recomp.Emit.Plain.{is_plain, all_plain, all_plain-append, compare_dot-IsPlain}
use xenon_recomp.Emit.Arith.{add_case, divide_case, multiply_case, subtract_case}
use xenon_recomp.Emit.Logic.{and_case, xor_case, compare_case}
use xenon_recomp.Emit.Shifts.{rotate_case, srawi_lines, shift_case}
use xenon_recomp.Base.{◌≡◌, refl, true, ◌==◌, if-elim, List}

pub add_case-IsPlain : (x : AddInst) (i : Insn) → all_plain (add_case x i) ≡ true
unfolding all_plain is_plain add_case ea_from_d ea_from_x update_base
add_case-IsPlain inst_add i = compare_dot-IsPlain i s32
add_case-IsPlain inst_addc i = compare_dot-IsPlain i s32
add_case-IsPlain inst_adde i = compare_dot-IsPlain i s32
add_case-IsPlain inst_addi i = refl
add_case-IsPlain inst_addic i = compare_dot-IsPlain i s32
add_case-IsPlain inst_addis i = refl
add_case-IsPlain inst_addme i = compare_dot-IsPlain i s32
add_case-IsPlain inst_addze i = compare_dot-IsPlain i s32

pub divide_case-IsPlain : (x : DivideInst) (i : Insn) → all_plain (divide_case x i) ≡ true
unfolding all_plain is_plain divide_case ea_from_d ea_from_x update_base
divide_case-IsPlain inst_db16cyc i = refl
divide_case-IsPlain inst_dcbf i = refl
divide_case-IsPlain inst_dcbt i = refl
divide_case-IsPlain inst_dcbtst i = refl
divide_case-IsPlain inst_dcbz i = refl
divide_case-IsPlain inst_dcbzl i = refl
divide_case-IsPlain inst_divd i = refl
divide_case-IsPlain inst_divdu i = compare_dot-IsPlain i s32
divide_case-IsPlain inst_divw i = compare_dot-IsPlain i s32
divide_case-IsPlain inst_divwu i = compare_dot-IsPlain i s32
divide_case-IsPlain inst_eieio i = refl
divide_case-IsPlain inst_eqv i = compare_dot-IsPlain i s32
divide_case-IsPlain inst_extsb i = compare_dot-IsPlain i s32
divide_case-IsPlain inst_extsh i = compare_dot-IsPlain i s32
divide_case-IsPlain inst_extsw i = compare_dot-IsPlain i s32

pub multiply_case-IsPlain : (x : MultiplyInst) (i : Insn) → all_plain (multiply_case x i) ≡ true
unfolding all_plain is_plain multiply_case ea_from_d ea_from_x update_base
multiply_case-IsPlain inst_mulhw i = refl
multiply_case-IsPlain inst_mulhwu i = compare_dot-IsPlain i s32
multiply_case-IsPlain inst_mulld i = refl
multiply_case-IsPlain inst_mulli i = refl
multiply_case-IsPlain inst_mullw i = compare_dot-IsPlain i s32
multiply_case-IsPlain inst_nand i = refl
multiply_case-IsPlain inst_neg i = compare_dot-IsPlain i s32
multiply_case-IsPlain inst_nop i = refl
multiply_case-IsPlain inst_nor i = refl
multiply_case-IsPlain inst_not i = compare_dot-IsPlain i s32
multiply_case-IsPlain inst_or i = compare_dot-IsPlain i s32
multiply_case-IsPlain inst_orc i = refl
multiply_case-IsPlain inst_ori i = refl
multiply_case-IsPlain inst_oris i = refl

pub subtract_case-IsPlain : (x : SubtractInst) (i : Insn) → all_plain (subtract_case x i) ≡ true
unfolding all_plain is_plain subtract_case ea_from_d ea_from_x update_base
subtract_case-IsPlain inst_subf i = compare_dot-IsPlain i s32
subtract_case-IsPlain inst_subfc i = compare_dot-IsPlain i s32
subtract_case-IsPlain inst_subfe i = compare_dot-IsPlain i s32
subtract_case-IsPlain inst_subfic i = refl
subtract_case-IsPlain inst_subfze i = compare_dot-IsPlain i s32
subtract_case-IsPlain inst_sync i = refl
subtract_case-IsPlain inst_tdlgei i = refl
subtract_case-IsPlain inst_tdllei i = refl
subtract_case-IsPlain inst_twi i = refl
subtract_case-IsPlain inst_twlgei i = refl
subtract_case-IsPlain inst_twllei i = refl

pub and_case-IsPlain : (x : AndInst) (i : Insn) → all_plain (and_case x i) ≡ true
unfolding all_plain is_plain and_case ea_from_d ea_from_x update_base
and_case-IsPlain inst_and i = compare_dot-IsPlain i s32
and_case-IsPlain inst_andc i = compare_dot-IsPlain i s32
and_case-IsPlain inst_andi i = refl
and_case-IsPlain inst_andis i = refl
and_case-IsPlain inst_attn i = refl

pub xor_case-IsPlain : (x : XorInst) (i : Insn) → all_plain (xor_case x i) ≡ true
unfolding all_plain is_plain xor_case ea_from_d ea_from_x update_base
xor_case-IsPlain inst_xor i = compare_dot-IsPlain i s32
xor_case-IsPlain inst_xori i = refl
xor_case-IsPlain inst_xoris i = refl

pub compare_case-IsPlain : (x : CompareInst) (i : Insn) → all_plain (compare_case x i) ≡ true
unfolding all_plain is_plain compare_case ea_from_d ea_from_x update_base
compare_case-IsPlain inst_cctpl i = refl
compare_case-IsPlain inst_cctpm i = refl
compare_case-IsPlain inst_clrldi i = compare_dot-IsPlain i s64
compare_case-IsPlain inst_clrlwi i = compare_dot-IsPlain i s32
compare_case-IsPlain inst_cmpd i = refl
compare_case-IsPlain inst_cmpdi i = refl
compare_case-IsPlain inst_cmpld i = refl
compare_case-IsPlain inst_cmpldi i = refl
compare_case-IsPlain inst_cmplw i = refl
compare_case-IsPlain inst_cmplwi i = refl
compare_case-IsPlain inst_cmpw i = refl
compare_case-IsPlain inst_cmpwi i = refl
compare_case-IsPlain inst_cntlzd i = refl
compare_case-IsPlain inst_cntlzw i = refl

pub rotate_case-IsPlain : (x : RotateInst) (i : Insn) → all_plain (rotate_case x i) ≡ true
unfolding all_plain is_plain rotate_case ea_from_d ea_from_x update_base
rotate_case-IsPlain inst_rldicl i = compare_dot-IsPlain i s64
rotate_case-IsPlain inst_rldicr i = compare_dot-IsPlain i s64
rotate_case-IsPlain inst_rldimi i = refl
rotate_case-IsPlain inst_rlwimi i = refl
rotate_case-IsPlain inst_rlwinm i = compare_dot-IsPlain i s32
rotate_case-IsPlain inst_rotldi i = compare_dot-IsPlain i s64
rotate_case-IsPlain inst_rotlw i = compare_dot-IsPlain i s32
rotate_case-IsPlain inst_rotlwi i = compare_dot-IsPlain i s32

srawi_lines-IsPlain : (i : Insn) → all_plain (srawi_lines i) ≡ true
unfolding all_plain is_plain srawi_lines
srawi_lines-IsPlain i =
    if-elim (λ (ss : List (Stmt Ref)). all_plain ss ≡ true) (i.operands 2 == 0) refl refl

pub shift_case-IsPlain : (x : ShiftInst) (i : Insn) → all_plain (shift_case x i) ≡ true
unfolding all_plain is_plain shift_case ea_from_d ea_from_x update_base
shift_case-IsPlain inst_sld i = refl
shift_case-IsPlain inst_slw i = compare_dot-IsPlain i s32
shift_case-IsPlain inst_srad i = refl
shift_case-IsPlain inst_sradi i =
    if-elim (λ (ss : List (Stmt Ref)). all_plain ss ≡ true) (i.operands 2 == 0) refl refl
shift_case-IsPlain inst_sraw i = compare_dot-IsPlain i s32
shift_case-IsPlain inst_srawi i =
    all_plain-append (srawi_lines i) (compare_dot i s32) (srawi_lines-IsPlain i)
      (compare_dot-IsPlain i s32)
shift_case-IsPlain inst_srd i = refl
shift_case-IsPlain inst_srw i = compare_dot-IsPlain i s32
