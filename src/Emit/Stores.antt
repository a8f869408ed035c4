-- ===== src/Emit/Stores.antt =====
-- The cases of `Recompiler::Recompile` for stores.
use xenon_recomp.Emit.{
  Ref, crf, xer, reserved, temp, ea, u8, u16, s32, u32, s64, u64, f32, lt, gt, eq, so, swap16,
  swap32, swap64, name, field, flag, dec, un, cast, swap_if, Stmt, set, set_flag, store,
}
use xenon_recomp.Emit.Insn.{
  StoreInst, inst_stb, inst_stbu, inst_stbx, inst_stbux, inst_std, inst_stdcx, inst_stdu, inst_stdx,
  inst_stdux, inst_sth, inst_sthu, inst_sthbrx, inst_sthux, inst_sthx, inst_stw, inst_stwbrx,
  inst_stwcx, inst_stwu, inst_stwux, inst_stwx, FloatStoreInst, inst_stfd, inst_stfdu, inst_stfdx,
  inst_stfdux, inst_stfiwx, inst_stfs, inst_stfsu, inst_stfsx, inst_stfsux, Insn, op_r, op_f, r_as,
  f_as, d_address, x_address, ea_from_d, ea_from_x, update_base,
}
use xenon_recomp.Base.{Bool, false, List, [], ◌∷◌}

-- `STB` to `STDUX` and `STH` to `STWX`, where `mmio` is the result of the lambda `mmioStore`.
unfoldable pub store_case : Bool → StoreInst → Insn → List (Stmt Ref)
unfolding d_address x_address ea_from_d ea_from_x update_base
store_case mmio inst_stb i = store mmio 8 (d_address i 2 1) (field (op_r i 0) u8) ∷ []
store_case mmio inst_stbu i =
    ea_from_d i ∷ store false 8 (name ea) (field (op_r i 0) u8) ∷ update_base i 2 ∷ []
store_case mmio inst_stbx i = store mmio 8 (x_address i 1 2) (field (op_r i 0) u8) ∷ []
store_case mmio inst_stbux i =
    ea_from_x i ∷ store false 8 (name ea) (field (op_r i 0) u8) ∷ update_base i 1 ∷ []
store_case mmio inst_std i = store mmio 64 (d_address i 2 1) (field (op_r i 0) u64) ∷ []
store_case mmio inst_stdcx i =
    set_flag (crf 0) lt (dec 0)
    ∷ set_flag (crf 0) gt (dec 0)
    ∷ set_flag (crf 0) eq
        (swap_if 64 (x_address i 1 2) (field reserved s64) (un swap64 (r_as i 0 s64)))
    ∷ set_flag (crf 0) so (flag xer so)
    ∷ []
store_case mmio inst_stdu i =
    ea_from_d i ∷ store false 64 (name ea) (field (op_r i 0) u64) ∷ update_base i 2 ∷ []
store_case mmio inst_stdx i = store mmio 64 (x_address i 1 2) (field (op_r i 0) u64) ∷ []
store_case mmio inst_stdux i =
    ea_from_x i ∷ store false 64 (name ea) (field (op_r i 0) u64) ∷ update_base i 1 ∷ []
store_case mmio inst_sth i = store mmio 16 (d_address i 2 1) (field (op_r i 0) u16) ∷ []
store_case mmio inst_sthu i =
    ea_from_d i ∷ store false 16 (name ea) (field (op_r i 0) u16) ∷ update_base i 2 ∷ []
store_case mmio inst_sthbrx i = store mmio 16 (x_address i 1 2) (un swap16 (r_as i 0 u16)) ∷ []
store_case mmio inst_sthux i =
    ea_from_x i ∷ store false 16 (name ea) (field (op_r i 0) u16) ∷ update_base i 1 ∷ []
store_case mmio inst_sthx i = store mmio 16 (x_address i 1 2) (field (op_r i 0) u16) ∷ []
store_case mmio inst_stw i = store mmio 32 (d_address i 2 1) (field (op_r i 0) u32) ∷ []
store_case mmio inst_stwbrx i = store mmio 32 (x_address i 1 2) (un swap32 (r_as i 0 u32)) ∷ []
store_case mmio inst_stwcx i =
    set_flag (crf 0) lt (dec 0)
    ∷ set_flag (crf 0) gt (dec 0)
    ∷ set_flag (crf 0) eq
        (swap_if 32 (x_address i 1 2) (field reserved s32) (un swap32 (r_as i 0 s32)))
    ∷ set_flag (crf 0) so (flag xer so)
    ∷ []
store_case mmio inst_stwu i =
    ea_from_d i ∷ store false 32 (name ea) (field (op_r i 0) u32) ∷ update_base i 2 ∷ []
store_case mmio inst_stwux i =
    ea_from_x i ∷ store false 32 (name ea) (field (op_r i 0) u32) ∷ update_base i 1 ∷ []
store_case mmio inst_stwx i = store mmio 32 (x_address i 1 2) (field (op_r i 0) u32) ∷ []

-- `STFD` to `STFSUX`, behind `printSetFlushMode(false)`.
unfoldable pub float_store_case : Bool → FloatStoreInst → Insn → List (Stmt Ref)
unfolding d_address x_address ea_from_d ea_from_x update_base
float_store_case mmio inst_stfd i = store mmio 64 (d_address i 2 1) (field (op_f i 0) u64) ∷ []
float_store_case mmio inst_stfdu i =
    ea_from_d i ∷ store false 64 (name ea) (field (op_f i 0) u64) ∷ update_base i 2 ∷ []
float_store_case mmio inst_stfdx i = store mmio 64 (x_address i 1 2) (field (op_f i 0) u64) ∷ []
float_store_case mmio inst_stfdux i =
    ea_from_x i ∷ store false 64 (name ea) (field (op_f i 0) u64) ∷ update_base i 1 ∷ []
float_store_case mmio inst_stfiwx i = store mmio 32 (x_address i 1 2) (field (op_f i 0) u32) ∷ []
float_store_case mmio inst_stfs i =
    set temp f32 (cast f32 (f_as i 0)) ∷ store mmio 32 (d_address i 2 1) (field temp u32) ∷ []
float_store_case mmio inst_stfsu i =
    set temp f32 (cast f32 (f_as i 0))
    ∷ ea_from_d i
    ∷ store false 32 (name ea) (field temp u32)
    ∷ update_base i 2
    ∷ []
float_store_case mmio inst_stfsx i =
    set temp f32 (cast f32 (f_as i 0)) ∷ store mmio 32 (x_address i 1 2) (field temp u32) ∷ []
float_store_case mmio inst_stfsux i =
    set temp f32 (cast f32 (f_as i 0))
    ∷ ea_from_x i
    ∷ store false 32 (name ea) (field temp u32)
    ∷ update_base i 1
    ∷ []
