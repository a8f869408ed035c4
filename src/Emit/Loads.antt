-- ===== src/Emit/Loads.antt =====
-- The cases of `Recompiler::Recompile` for loads.
use xenon_recomp.Emit.{
  Ref, reserved, temp, ea, s16, s32, u32, s64, u64, f32, f64, swap32, swap64, name, field, int, un,
  cast, load, raw_load, Stmt, set,
}
use xenon_recomp.Emit.Insn.{
  LoadInst, inst_lbz, inst_lbzu, inst_lbzux, inst_lbzx, inst_ld, inst_ldarx, inst_ldu, inst_ldx,
  inst_ldux, inst_lha, inst_lhau, inst_lhax, inst_lhaux, inst_lhz, inst_lhzu, inst_lhzx, inst_lhzux,
  inst_li, inst_lis, inst_lwa, inst_lwarx, inst_lwax, inst_lwbrx, inst_lwsync, inst_lwz, inst_lwzu,
  inst_lwzx, inst_lwzux, FloatLoadInst, inst_lfd, inst_lfdu, inst_lfdx, inst_lfdux, inst_lfs,
  inst_lfsu, inst_lfsx, inst_lfsux, Insn, op_r, op_f, shifted16, d_address, x_address, ea_from_d,
  ea_from_x, update_base,
}
use xenon_recomp.Base.{List, [], ◌∷◌}

-- `LBZ` to `LDUX` and `LHA` to `LIS`, then `LWA` to `LWZUX`.
unfoldable pub load_case : LoadInst → Insn → List (Stmt Ref)
unfolding d_address x_address ea_from_d ea_from_x update_base
load_case inst_lbz i = set (op_r i 0) u64 ((load 8 (d_address i 2 1))) ∷ []
load_case inst_lbzu i = ea_from_d i ∷ set (op_r i 0) u64 ((load 8 (name ea))) ∷ update_base i 2 ∷ []
load_case inst_lbzux i =
    ea_from_x i ∷ set (op_r i 0) u64 ((load 8 (name ea))) ∷ update_base i 1 ∷ []
load_case inst_lbzx i = set (op_r i 0) u64 ((load 8 (x_address i 1 2))) ∷ []
load_case inst_ld i = set (op_r i 0) u64 ((load 64 (d_address i 2 1))) ∷ []
load_case inst_ldarx i =
    set reserved u64 (raw_load 64 (x_address i 1 2))
    ∷ set (op_r i 0) u64 (un swap64 (field reserved u64))
    ∷ []
load_case inst_ldu i = ea_from_d i ∷ set (op_r i 0) u64 ((load 64 (name ea))) ∷ update_base i 2 ∷ []
load_case inst_ldx i = set (op_r i 0) u64 ((load 64 (x_address i 1 2))) ∷ []
load_case inst_ldux i =
    ea_from_x i ∷ set (op_r i 0) u64 ((load 64 (name ea))) ∷ update_base i 1 ∷ []
load_case inst_lha i = set (op_r i 0) s64 (cast s16 ((load 16 (d_address i 2 1)))) ∷ []
load_case inst_lhau i =
    ea_from_d i ∷ set (op_r i 0) s64 (cast s16 ((load 16 (name ea)))) ∷ update_base i 2 ∷ []
load_case inst_lhax i = set (op_r i 0) s64 (cast s16 ((load 16 (x_address i 1 2)))) ∷ []
load_case inst_lhaux i =
    ea_from_x i ∷ set (op_r i 0) s64 (cast s16 ((load 16 (name ea)))) ∷ update_base i 1 ∷ []
load_case inst_lhz i = set (op_r i 0) u64 ((load 16 (d_address i 2 1))) ∷ []
load_case inst_lhzu i =
    ea_from_d i ∷ set (op_r i 0) u64 ((load 16 (name ea))) ∷ update_base i 2 ∷ []
load_case inst_lhzx i = set (op_r i 0) u64 ((load 16 (x_address i 1 2))) ∷ []
load_case inst_lhzux i =
    ea_from_x i ∷ set (op_r i 0) u64 ((load 16 (name ea))) ∷ update_base i 1 ∷ []
load_case inst_li i = set (op_r i 0) s64 (int (i.operands 1)) ∷ []
load_case inst_lis i = set (op_r i 0) s64 (int (shifted16 i 1)) ∷ []
load_case inst_lwa i = set (op_r i 0) s64 (cast s32 ((load 32 (d_address i 2 1)))) ∷ []
load_case inst_lwarx i =
    set reserved u32 (raw_load 32 (x_address i 1 2))
    ∷ set (op_r i 0) u64 (un swap32 (field reserved u32))
    ∷ []
load_case inst_lwax i = set (op_r i 0) s64 (cast s32 ((load 32 (x_address i 1 2)))) ∷ []
load_case inst_lwbrx i = set (op_r i 0) u64 (un swap32 ((load 32 (x_address i 1 2)))) ∷ []
load_case inst_lwsync i = []
load_case inst_lwz i = set (op_r i 0) u64 ((load 32 (d_address i 2 1))) ∷ []
load_case inst_lwzu i =
    ea_from_d i ∷ set (op_r i 0) u64 ((load 32 (name ea))) ∷ update_base i 2 ∷ []
load_case inst_lwzx i = set (op_r i 0) u64 ((load 32 (x_address i 1 2))) ∷ []
load_case inst_lwzux i =
    ea_from_x i ∷ set (op_r i 0) u64 ((load 32 (name ea))) ∷ update_base i 1 ∷ []

-- `LFD` to `LFSUX`, behind `printSetFlushMode(false)`.
unfoldable pub float_load_case : FloatLoadInst → Insn → List (Stmt Ref)
unfolding d_address x_address ea_from_d ea_from_x update_base
float_load_case inst_lfd i = set (op_f i 0) u64 (load 64 (d_address i 2 1)) ∷ []
float_load_case inst_lfdu i =
    ea_from_d i ∷ set (op_f i 0) u64 (load 64 (name ea)) ∷ update_base i 2 ∷ []
float_load_case inst_lfdx i = set (op_f i 0) u64 (load 64 (x_address i 1 2)) ∷ []
float_load_case inst_lfdux i =
    ea_from_x i ∷ set (op_f i 0) u64 (load 64 (name ea)) ∷ update_base i 1 ∷ []
float_load_case inst_lfs i =
    set temp u32 (load 32 (d_address i 2 1)) ∷ set (op_f i 0) f64 (cast f64 (field temp f32)) ∷ []
float_load_case inst_lfsu i =
    ea_from_d i
    ∷ set temp u32 (load 32 (name ea))
    ∷ set (op_f i 0) f64 (cast f64 (field temp f32))
    ∷ update_base i 2
    ∷ []
float_load_case inst_lfsx i =
    set temp u32 (load 32 (x_address i 1 2)) ∷ set (op_f i 0) f64 (cast f64 (field temp f32)) ∷ []
float_load_case inst_lfsux i =
    ea_from_x i
    ∷ set temp u32 (load 32 (name ea))
    ∷ set (op_f i 0) f64 (cast f64 (field temp f32))
    ∷ update_base i 1
    ∷ []
