-- ===== src/Emit/Insn.antt =====
-- `ppc_insn` as the translation reads it. The ids are grouped by the part of the switch of
-- `Recompiler::Recompile` that handles them. The vector instructions of the switch are not modelled and
-- have no id here: a program of the model has none.
use xenon_recomp.Base.{ℕ, ◌*◌, ◌%◌, ◌^◌, ◌==◌, if◌then◌else◌, Bool, List, [], ◌∷◌}
use xenon_recomp.Emit.{
  Ref, gpr, fpr, crf, xer, ea, View, u32, f64, plus, Expr, field, dec, int, bin, Stmt, set,
  set_name, compare,
}

pub data AddInst : Type 0 where
  inst_add inst_addc inst_adde inst_addi inst_addic inst_addis inst_addme inst_addze : AddInst

pub data AndInst : Type 0 where
  inst_and inst_andc inst_andi inst_andis inst_attn : AndInst

pub data JumpInst : Type 0 where
  inst_b inst_bctr inst_bctrl inst_bl inst_blr inst_blrl inst_bnectr : JumpInst

pub data CountInst : Type 0 where
  inst_bdz inst_bdzlr inst_bdzf inst_bdzflr inst_bdzt inst_bdztlr : CountInst
  inst_bdnz inst_bdnzf inst_bdnzflr inst_bdnzt inst_bdnztlr : CountInst

pub data TestInst : Type 0 where
  inst_beq inst_beqlr inst_bge inst_bgelr inst_bgt inst_bgtlr inst_ble inst_blelr : TestInst
  inst_blt inst_bltlr inst_bne inst_bnelr : TestInst

pub data CompareInst : Type 0 where
  inst_cctpl inst_cctpm inst_clrldi inst_clrlwi inst_cmpd inst_cmpdi inst_cmpld : CompareInst
  inst_cmpldi inst_cmplw inst_cmplwi inst_cmpw inst_cmpwi inst_cntlzd inst_cntlzw : CompareInst

pub data DivideInst : Type 0 where
  inst_db16cyc inst_dcbf inst_dcbt inst_dcbtst inst_dcbz inst_dcbzl inst_divd : DivideInst
  inst_divdu inst_divw inst_divwu inst_eieio inst_eqv inst_extsb inst_extsh inst_extsw : DivideInst

pub data FloatInst : Type 0 where
  inst_fabs inst_fadd inst_fadds inst_fcfid inst_fcmpu inst_fctid inst_fctidz : FloatInst
  inst_fctiwz inst_fdiv inst_fdivs inst_fmadd inst_fmadds inst_fmr inst_fmsub : FloatInst
  inst_fmsubs inst_fmul inst_fmuls inst_fnabs inst_fneg inst_fnmadds inst_fnmsub : FloatInst
  inst_fnmsubs inst_fres inst_frsp inst_fsel inst_fsqrt inst_fsqrts inst_fsub inst_fsubs : FloatInst

pub data LoadInst : Type 0 where
  inst_lbz inst_lbzu inst_lbzux inst_lbzx inst_ld inst_ldarx inst_ldu inst_ldx inst_ldux : LoadInst
  inst_lha inst_lhau inst_lhax inst_lhaux inst_lhz inst_lhzu inst_lhzx inst_lhzux : LoadInst
  inst_li inst_lis inst_lwa inst_lwarx inst_lwax inst_lwbrx inst_lwsync inst_lwz : LoadInst
  inst_lwzu inst_lwzx inst_lwzux : LoadInst

pub data FloatLoadInst : Type 0 where
  inst_lfd inst_lfdu inst_lfdx inst_lfdux inst_lfs inst_lfsu inst_lfsx inst_lfsux : FloatLoadInst

pub data MoveInst : Type 0 where
  inst_mfcr inst_mffs inst_mflr inst_mfmsr inst_mfocrf inst_mftb inst_mr inst_mtcr : MoveInst
  inst_mtctr inst_mtfsf inst_mtlr inst_mtmsrd inst_mtxer : MoveInst

pub data MultiplyInst : Type 0 where
  inst_mulhw inst_mulhwu inst_mulld inst_mulli inst_mullw inst_nand inst_neg : MultiplyInst
  inst_nop inst_nor inst_not inst_or inst_orc inst_ori inst_oris : MultiplyInst

pub data RotateInst : Type 0 where
  inst_rldicl inst_rldicr inst_rldimi inst_rlwimi inst_rlwinm inst_rotldi : RotateInst
  inst_rotlw inst_rotlwi : RotateInst

pub data ShiftInst : Type 0 where
  inst_sld inst_slw inst_srad inst_sradi inst_sraw inst_srawi inst_srd inst_srw : ShiftInst

pub data StoreInst : Type 0 where
  inst_stb inst_stbu inst_stbx inst_stbux inst_std inst_stdcx inst_stdu inst_stdx : StoreInst
  inst_stdux inst_sth inst_sthu inst_sthbrx inst_sthux inst_sthx inst_stw inst_stwbrx : StoreInst
  inst_stwcx inst_stwu inst_stwux inst_stwx : StoreInst

pub data FloatStoreInst : Type 0 where
  inst_stfd inst_stfdu inst_stfdx inst_stfdux inst_stfiwx inst_stfs inst_stfsu : FloatStoreInst
  inst_stfsx inst_stfsux : FloatStoreInst

pub data SubtractInst : Type 0 where
  inst_subf inst_subfc inst_subfe inst_subfic inst_subfze inst_sync inst_tdlgei : SubtractInst
  inst_tdllei inst_twi inst_twlgei inst_twllei : SubtractInst

pub data XorInst : Type 0 where
  inst_xor inst_xori inst_xoris : XorInst

pub data InstId : Type 0 where
  add_group : AddInst → InstId
  and_group : AndInst → InstId
  jump_group : JumpInst → InstId
  count_group : CountInst → InstId
  test_group : TestInst → InstId
  compare_group : CompareInst → InstId
  divide_group : DivideInst → InstId
  float_group : FloatInst → InstId
  load_group : LoadInst → InstId
  float_load_group : FloatLoadInst → InstId
  move_group : MoveInst → InstId
  multiply_group : MultiplyInst → InstId
  rotate_group : RotateInst → InstId
  shift_group : ShiftInst → InstId
  store_group : StoreInst → InstId
  float_store_group : FloatStoreInst → InstId
  subtract_group : SubtractInst → InstId
  xor_group : XorInst → InstId
  -- An id that the switch does not list, of no vector instruction.
  unlisted : ℕ → InstId

-- `operands` are 32-bit; `dot` says that the name has a `.`.
pub record Insn : Type 0 where
  pub id : InstId
  pub operands : ℕ → ℕ
  pub dot : Bool

-- The calls `r(insn.operands[k])`, `f(..)` and `cr(..)`, and their members.
abbrev pub op_r : Insn → ℕ → Ref
op_r i k = gpr (i.operands k)

abbrev pub op_f : Insn → ℕ → Ref
op_f i k = fpr (i.operands k)

abbrev pub op_cr : Insn → ℕ → Ref
op_cr i k = crf (i.operands k)

abbrev pub r_as : Insn → ℕ → View → Expr Ref
r_as i k w = field (op_r i k) w

abbrev pub f_as : Insn → ℕ → Expr Ref
f_as i k = field (op_f i k) f64

-- `insn.operands[k] << 16`.
abbrev pub shifted16 : Insn → ℕ → ℕ
shifted16 i k = i.operands k * 2 ^ 16 % 2 ^ 32

-- The comparison with 0 that follows where the name has a dot.
unfoldable pub compare_dot : Insn → View → List (Stmt Ref)
compare_dot i w = if i.dot then compare (crf 0) w (r_as i 0 w) (dec 0) xer ∷ [] else []

-- The text of a D-form address, with a displacement printed as `int32_t`: the register is left out
-- where its number is 0. Then the X-form's.
unfoldable pub d_address : Insn → ℕ → ℕ → Expr Ref
d_address i a d =
    if i.operands a == 0 then int (i.operands d) else bin plus (r_as i a u32) (int (i.operands d))

unfoldable pub x_address : Insn → ℕ → ℕ → Expr Ref
x_address i a b = if i.operands a == 0 then r_as i b u32 else bin plus (r_as i a u32) (r_as i b u32)

-- `ea = displacement + rA.u32;`, `ea = rA.u32 + rB.u32;`, and the update of the base register.
unfoldable pub ea_from_d : Insn → Stmt Ref
ea_from_d i = set_name ea (bin plus (int (i.operands 1)) (r_as i 2 u32))

unfoldable pub ea_from_x : Insn → Stmt Ref
ea_from_x i = set_name ea (bin plus (r_as i 1 u32) (r_as i 2 u32))

unfoldable pub update_base : Insn → ℕ → Stmt Ref
update_base i k = set (op_r i k) u32 (Expr.name ea)
