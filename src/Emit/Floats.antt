-- ===== src/Emit/Floats.antt =====
-- The cases of `Recompiler::Recompile` for floating-point arithmetic.
use xenon_recomp.Emit.{
  Ref, s64, u64, f32, f64, plus, minus, times, divide, and_bits, or_bits, xor_bits, greater,
  greater_eq, complement, negate, square_root, load_sd, cvtsd_si64, cvttsd_si64, cvttsd_si32, field,
  hex, one_f64, zero_f64, long_max, int_max, long_max_f64, int_max_f64, bin, un, cast, pick, Stmt,
  set, compare_f64,
}
use xenon_recomp.Emit.Insn.{
  FloatInst, inst_fabs, inst_fadd, inst_fadds, inst_fcfid, inst_fcmpu, inst_fctid, inst_fctidz,
  inst_fctiwz, inst_fdiv, inst_fdivs, inst_fmadd, inst_fmadds, inst_fmr, inst_fmsub, inst_fmsubs,
  inst_fmul, inst_fmuls, inst_fnabs, inst_fneg, inst_fnmadds, inst_fnmsub, inst_fnmsubs, inst_fres,
  inst_frsp, inst_fsel, inst_fsqrt, inst_fsqrts, inst_fsub, inst_fsubs, Insn, op_f, op_cr, f_as,
}
use xenon_recomp.Base.{List, [], ◌∷◌}

-- `FABS` to `FSUBS`, behind `printSetFlushMode(false)`.
unfoldable pub float_case : FloatInst → Insn → List (Stmt Ref)
float_case inst_fabs i =
    set (op_f i 0) u64
      (bin and_bits (field (op_f i 1) u64) (un complement (hex 0x8000000000000000)))
    ∷ []
float_case inst_fadd i = set (op_f i 0) f64 (bin plus (f_as i 1) (f_as i 2)) ∷ []
float_case inst_fadds i =
    set (op_f i 0) f64 (cast f64 (cast f32 (bin plus (f_as i 1) (f_as i 2)))) ∷ []
float_case inst_fcfid i = set (op_f i 0) f64 (cast f64 (field (op_f i 1) s64)) ∷ []
float_case inst_fcmpu i = compare_f64 (op_cr i 0) (f_as i 1) (f_as i 2) ∷ []
float_case inst_fctid i =
    set (op_f i 0) s64
      (pick (bin greater (f_as i 1) long_max_f64) long_max (un cvtsd_si64 (un load_sd (f_as i 1))))
    ∷ []
float_case inst_fctidz i =
    set (op_f i 0) s64
      (pick (bin greater (f_as i 1) long_max_f64) long_max (un cvttsd_si64 (un load_sd (f_as i 1))))
    ∷ []
float_case inst_fctiwz i =
    set (op_f i 0) s64
      (pick (bin greater (f_as i 1) int_max_f64) int_max (un cvttsd_si32 (un load_sd (f_as i 1))))
    ∷ []
float_case inst_fdiv i = set (op_f i 0) f64 (bin divide (f_as i 1) (f_as i 2)) ∷ []
float_case inst_fdivs i =
    set (op_f i 0) f64 (cast f64 (cast f32 (bin divide (f_as i 1) (f_as i 2)))) ∷ []
float_case inst_fmadd i =
    set (op_f i 0) f64 (bin plus (bin times (f_as i 1) (f_as i 2)) (f_as i 3)) ∷ []
float_case inst_fmadds i =
    set (op_f i 0) f64 (cast f64 (cast f32 (bin plus (bin times (f_as i 1) (f_as i 2)) (f_as i 3))))
    ∷ []
float_case inst_fmr i = set (op_f i 0) f64 (f_as i 1) ∷ []
float_case inst_fmsub i =
    set (op_f i 0) f64 (bin minus (bin times (f_as i 1) (f_as i 2)) (f_as i 3)) ∷ []
float_case inst_fmsubs i =
    set (op_f i 0) f64
      (cast f64 (cast f32 (bin minus (bin times (f_as i 1) (f_as i 2)) (f_as i 3))))
    ∷ []
float_case inst_fmul i = set (op_f i 0) f64 (bin times (f_as i 1) (f_as i 2)) ∷ []
float_case inst_fmuls i =
    set (op_f i 0) f64 (cast f64 (cast f32 (bin times (f_as i 1) (f_as i 2)))) ∷ []
float_case inst_fnabs i =
    set (op_f i 0) u64 (bin or_bits (field (op_f i 1) u64) (hex 0x8000000000000000)) ∷ []
float_case inst_fneg i =
    set (op_f i 0) u64 (bin xor_bits (field (op_f i 1) u64) (hex 0x8000000000000000)) ∷ []
float_case inst_fnmadds i =
    set (op_f i 0) f64
      (cast f64 (cast f32 (un negate (bin plus (bin times (f_as i 1) (f_as i 2)) (f_as i 3)))))
    ∷ []
float_case inst_fnmsub i =
    set (op_f i 0) f64 (un negate (bin minus (bin times (f_as i 1) (f_as i 2)) (f_as i 3))) ∷ []
float_case inst_fnmsubs i =
    set (op_f i 0) f64
      (cast f64 (cast f32 (un negate (bin minus (bin times (f_as i 1) (f_as i 2)) (f_as i 3)))))
    ∷ []
float_case inst_fres i = set (op_f i 0) f64 (cast f32 (bin divide one_f64 (f_as i 1))) ∷ []
float_case inst_frsp i = set (op_f i 0) f64 (cast f64 (cast f32 (f_as i 1))) ∷ []
float_case inst_fsel i =
    set (op_f i 0) f64 (pick (bin greater_eq (f_as i 1) zero_f64) (f_as i 2) (f_as i 3)) ∷ []
float_case inst_fsqrt i = set (op_f i 0) f64 (un square_root (f_as i 1)) ∷ []
float_case inst_fsqrts i = set (op_f i 0) f64 (cast f64 (cast f32 (un square_root (f_as i 1)))) ∷ []
float_case inst_fsub i = set (op_f i 0) f64 (bin minus (f_as i 1) (f_as i 2)) ∷ []
float_case inst_fsubs i =
    set (op_f i 0) f64 (cast f64 (cast f32 (bin minus (f_as i 1) (f_as i 2)))) ∷ []
