-- ===== src/Emit/Plain/Transfers.antt =====
-- The lines of floating-point arithmetic, loads, stores and moves only compute.
use xenon_recomp.Emit.{Ref, s32, Stmt}
use xenon_recomp.Emit.Insn.{
  FloatInst, inst_fabs, inst_fadd, inst_fadds, inst_fcfid, inst_fcmpu, inst_fctid, inst_fctidz,
  inst_fctiwz, inst_fdiv, inst_fdivs, inst_fmadd, inst_fmadds, inst_fmr, inst_fmsub, inst_fmsubs,
  inst_fmul, inst_fmuls, inst_fnabs, inst_fneg, inst_fnmadds, inst_fnmsub, inst_fnmsubs, inst_fres,
  inst_frsp, inst_fsel, inst_fsqrt, inst_fsqrts, inst_fsub, inst_fsubs, LoadInst, inst_lbz,
  inst_lbzu, inst_lbzux, inst_lbzx, inst_ld, inst_ldarx, inst_ldu, inst_ldx, inst_ldux, inst_lha,
  inst_lhau, inst_lhax, inst_lhaux, inst_lhz, inst_lhzu, inst_lhzx, inst_lhzux, inst_li, inst_lis,
  inst_lwa, inst_lwarx, inst_lwax, inst_lwbrx, inst_lwsync, inst_lwz, inst_lwzu, inst_lwzx,
  inst_lwzux, FloatLoadInst, inst_lfd, inst_lfdu, inst_lfdx, inst_lfdux, inst_lfs, inst_lfsu,
  inst_lfsx, inst_lfsux, MoveInst, inst_mfcr, inst_mffs, inst_mflr, inst_mfmsr, inst_mfocrf,
  inst_mftb, inst_mr, inst_mtcr, inst_mtctr, inst_mtfsf, inst_mtlr, inst_mtmsrd, inst_mtxer,
  StoreInst, inst_stb, inst_stbu, inst_stbx, inst_stbux, inst_std, inst_stdcx, inst_stdu, inst_stdx,
  inst_stdux, inst_sth, inst_sthu, inst_sthbrx, inst_sthux, inst_sthx, inst_stw, inst_stwbrx,
  inst_stwcx, inst_stwu, inst_stwux, inst_stwx, FloatStoreInst, inst_stfd, inst_stfdu, inst_stfdx,
  inst_stfdux, inst_stfiwx, inst_stfs, inst_stfsu, inst_stfsx, inst_stfsux, Insn, ea_from_d,
  ea_from_x, update_base,
}
use xenon_recomp.Emit.Config.{Config}
use xenon_recomp.Emit.Plain.{is_plain, all_plain, and_join, compare_dot-IsPlain}
use xenon_recomp.Emit.Floats.{float_case}
use xenon_recomp.Emit.Loads.{load_case, float_load_case}
use xenon_recomp.Emit.Stores.{store_case, float_store_case}
use xenon_recomp.Emit.Moves.{mfcr_loop, mtcr_loop, move_case}
use xenon_recomp.Base.{ℕ, zero, suc, ◌≡◌, refl, Bool, true, ◌==◌, if-elim, List}

pub float_case-IsPlain : (x : FloatInst) (i : Insn) → all_plain (float_case x i) ≡ true
unfolding all_plain is_plain float_case ea_from_d ea_from_x update_base
float_case-IsPlain inst_fabs i = refl
float_case-IsPlain inst_fadd i = refl
float_case-IsPlain inst_fadds i = refl
float_case-IsPlain inst_fcfid i = refl
float_case-IsPlain inst_fcmpu i = refl
float_case-IsPlain inst_fctid i = refl
float_case-IsPlain inst_fctidz i = refl
float_case-IsPlain inst_fctiwz i = refl
float_case-IsPlain inst_fdiv i = refl
float_case-IsPlain inst_fdivs i = refl
float_case-IsPlain inst_fmadd i = refl
float_case-IsPlain inst_fmadds i = refl
float_case-IsPlain inst_fmr i = refl
float_case-IsPlain inst_fmsub i = refl
float_case-IsPlain inst_fmsubs i = refl
float_case-IsPlain inst_fmul i = refl
float_case-IsPlain inst_fmuls i = refl
float_case-IsPlain inst_fnabs i = refl
float_case-IsPlain inst_fneg i = refl
float_case-IsPlain inst_fnmadds i = refl
float_case-IsPlain inst_fnmsub i = refl
float_case-IsPlain inst_fnmsubs i = refl
float_case-IsPlain inst_fres i = refl
float_case-IsPlain inst_frsp i = refl
float_case-IsPlain inst_fsel i = refl
float_case-IsPlain inst_fsqrt i = refl
float_case-IsPlain inst_fsqrts i = refl
float_case-IsPlain inst_fsub i = refl
float_case-IsPlain inst_fsubs i = refl

pub load_case-IsPlain : (x : LoadInst) (i : Insn) → all_plain (load_case x i) ≡ true
unfolding all_plain is_plain load_case ea_from_d ea_from_x update_base
load_case-IsPlain inst_lbz i = refl
load_case-IsPlain inst_lbzu i = refl
load_case-IsPlain inst_lbzux i = refl
load_case-IsPlain inst_lbzx i = refl
load_case-IsPlain inst_ld i = refl
load_case-IsPlain inst_ldarx i = refl
load_case-IsPlain inst_ldu i = refl
load_case-IsPlain inst_ldx i = refl
load_case-IsPlain inst_ldux i = refl
load_case-IsPlain inst_lha i = refl
load_case-IsPlain inst_lhau i = refl
load_case-IsPlain inst_lhax i = refl
load_case-IsPlain inst_lhaux i = refl
load_case-IsPlain inst_lhz i = refl
load_case-IsPlain inst_lhzu i = refl
load_case-IsPlain inst_lhzx i = refl
load_case-IsPlain inst_lhzux i = refl
load_case-IsPlain inst_li i = refl
load_case-IsPlain inst_lis i = refl
load_case-IsPlain inst_lwa i = refl
load_case-IsPlain inst_lwarx i = refl
load_case-IsPlain inst_lwax i = refl
load_case-IsPlain inst_lwbrx i = refl
load_case-IsPlain inst_lwsync i = refl
load_case-IsPlain inst_lwz i = refl
load_case-IsPlain inst_lwzu i = refl
load_case-IsPlain inst_lwzx i = refl
load_case-IsPlain inst_lwzux i = refl

pub float_load_case-IsPlain :
    (x : FloatLoadInst) (i : Insn) → all_plain (float_load_case x i) ≡ true
unfolding all_plain is_plain float_load_case ea_from_d ea_from_x update_base
float_load_case-IsPlain inst_lfd i = refl
float_load_case-IsPlain inst_lfdu i = refl
float_load_case-IsPlain inst_lfdx i = refl
float_load_case-IsPlain inst_lfdux i = refl
float_load_case-IsPlain inst_lfs i = refl
float_load_case-IsPlain inst_lfsu i = refl
float_load_case-IsPlain inst_lfsx i = refl
float_load_case-IsPlain inst_lfsux i = refl

pub store_case-IsPlain :
    (mmio : Bool) (x : StoreInst) (i : Insn) → all_plain (store_case mmio x i) ≡ true
unfolding all_plain is_plain store_case ea_from_d ea_from_x update_base
store_case-IsPlain mmio inst_stb i = refl
store_case-IsPlain mmio inst_stbu i = refl
store_case-IsPlain mmio inst_stbx i = refl
store_case-IsPlain mmio inst_stbux i = refl
store_case-IsPlain mmio inst_std i = refl
store_case-IsPlain mmio inst_stdcx i = refl
store_case-IsPlain mmio inst_stdu i = refl
store_case-IsPlain mmio inst_stdx i = refl
store_case-IsPlain mmio inst_stdux i = refl
store_case-IsPlain mmio inst_sth i = refl
store_case-IsPlain mmio inst_sthu i = refl
store_case-IsPlain mmio inst_sthbrx i = refl
store_case-IsPlain mmio inst_sthux i = refl
store_case-IsPlain mmio inst_sthx i = refl
store_case-IsPlain mmio inst_stw i = refl
store_case-IsPlain mmio inst_stwbrx i = refl
store_case-IsPlain mmio inst_stwcx i = refl
store_case-IsPlain mmio inst_stwu i = refl
store_case-IsPlain mmio inst_stwux i = refl
store_case-IsPlain mmio inst_stwx i = refl

pub float_store_case-IsPlain :
    (mmio : Bool) (x : FloatStoreInst) (i : Insn) → all_plain (float_store_case mmio x i) ≡ true
unfolding all_plain is_plain float_store_case ea_from_d ea_from_x update_base
float_store_case-IsPlain mmio inst_stfd i = refl
float_store_case-IsPlain mmio inst_stfdu i = refl
float_store_case-IsPlain mmio inst_stfdx i = refl
float_store_case-IsPlain mmio inst_stfdux i = refl
float_store_case-IsPlain mmio inst_stfiwx i = refl
float_store_case-IsPlain mmio inst_stfs i = refl
float_store_case-IsPlain mmio inst_stfsu i = refl
float_store_case-IsPlain mmio inst_stfsx i = refl
float_store_case-IsPlain mmio inst_stfsux i = refl

mfcr_loop-IsPlain : (i : Insn) (k n : ℕ) → all_plain (mfcr_loop i k n) ≡ true
unfolding all_plain is_plain mfcr_loop
mfcr_loop-IsPlain i k zero = refl
mfcr_loop-IsPlain i k (suc n) =
    and_join _ (all_plain (mfcr_loop i (suc k) n))
      (if-elim (λ (s : Stmt Ref). is_plain s ≡ true) (k == 0) refl refl)
      (mfcr_loop-IsPlain i (suc k) n)

mtcr_loop-IsPlain : (i : Insn) (k n : ℕ) → all_plain (mtcr_loop i k n) ≡ true
unfolding all_plain is_plain mtcr_loop
mtcr_loop-IsPlain i k zero = refl
mtcr_loop-IsPlain i k (suc n) = mtcr_loop-IsPlain i (suc k) n

pub move_case-IsPlain : (c : Config) (x : MoveInst) (i : Insn) → all_plain (move_case c x i) ≡ true
unfolding all_plain is_plain move_case
move_case-IsPlain c inst_mfcr i = mfcr_loop-IsPlain i 0 32
move_case-IsPlain c inst_mffs i = refl
move_case-IsPlain c inst_mflr i =
    if-elim (λ (ss : List (Stmt Ref)). all_plain ss ≡ true) c.skip_lr refl refl
move_case-IsPlain c inst_mfmsr i =
    if-elim (λ (ss : List (Stmt Ref)). all_plain ss ≡ true) c.skip_msr refl refl
move_case-IsPlain c inst_mfocrf i = refl
move_case-IsPlain c inst_mftb i = refl
move_case-IsPlain c inst_mr i = compare_dot-IsPlain i s32
move_case-IsPlain c inst_mtcr i = mtcr_loop-IsPlain i 0 32
move_case-IsPlain c inst_mtctr i = refl
move_case-IsPlain c inst_mtfsf i = refl
move_case-IsPlain c inst_mtlr i =
    if-elim (λ (ss : List (Stmt Ref)). all_plain ss ≡ true) c.skip_lr refl refl
move_case-IsPlain c inst_mtmsrd i =
    if-elim (λ (ss : List (Stmt Ref)). all_plain ss ≡ true) c.skip_msr refl refl
move_case-IsPlain c inst_mtxer i = refl
