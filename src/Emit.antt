-- ===== src/Emit.antt =====
-- The C++ that `XenonRecomp/recompiler.cpp` prints, as a syntax tree: each constructor is one form of
-- text, and a name stands where the format string has `{}`. A case of the translation is written
-- with `Ref`, the lambda that it calls for a name, and the output with `Var`, the name printed.
pub mod Insn
pub mod Names
pub mod Plain
pub mod Targets
pub mod Arith
pub mod Logic
pub mod Shifts
pub mod Config
pub mod Loads
pub mod Stores
pub mod Floats
pub mod Moves
pub mod Branches
pub mod Translate
pub mod Fn
use Prim.Native.String.{String}
use xenon_recomp.Base.{ℕ, ◌==◌, Bool, true, false, List, [], ◌∷◌, ◌++◌}

-- The lambdas `r`, `f`, `v`, `cr`, `ctr`, `xer`, `reserved`, `temp`, `vTemp`, `env`, `ea`, and the
-- fields of the context that are always printed with `ctx.`.
pub data Ref : Type 0 where
  gpr fpr vec crf : ℕ → Ref
  ctr xer reserved temp v_temp env ea link msr fpscr : Ref

unfoldable pub same_ref : Ref → Ref → Bool
same_ref (gpr a) (gpr b) = a == b
same_ref (fpr a) (fpr b) = a == b
same_ref (vec a) (vec b) = a == b
same_ref (crf a) (crf b) = a == b
same_ref ctr ctr = true
same_ref xer xer = true
same_ref reserved reserved = true
same_ref temp temp = true
same_ref v_temp v_temp = true
same_ref env env = true
same_ref ea ea = true
same_ref link link = true
same_ref msr msr = true
same_ref fpscr fpscr = true
same_ref _ _ = false

-- A printed name: a local variable's, or one with `ctx.`.
pub record Var : Type 0 where
  pub local : Bool
  pub ref : Ref

-- The members of the union `PPCRegister`, and the flags of `PPCCRRegister` and `PPCXERRegister`.
pub data View : Type 0 where
  s8 u8 s16 u16 s32 u32 s64 u64 f32 f64 : View

pub data Flag : Type 0 where
  lt gt eq so ov ca : Flag

pub data BinOp : Type 0 where
  plus minus times divide and_bits or_bits xor_bits shift_left shift_right : BinOp
  less greater less_eq greater_eq equal differs both rotate_left32 rotate_left64 : BinOp

pub data UnOp : Type 0 where
  complement negate falsify swap16 swap32 swap64 clz32 clz64 square_root load_sd : UnOp
  cvtsd_si64 cvttsd_si64 cvttsd_si32 : UnOp

-- `dec` and `hex` print an unsigned number, `int` prints `int32_t` of a `uint32_t`.
pub data Expr (N : Type 0) : Type 0 where
  name : N → Expr N
  field : N → View → Expr N
  flag : N → Flag → Expr N
  dec hex int : ℕ → Expr N
  one_f64 zero_f64 long_max int_max long_max_f64 int_max_f64 rdtsc from_host : Expr N
  bin : BinOp → Expr N → Expr N → Expr N
  un : UnOp → Expr N → Expr N
  cast : View → Expr N → Expr N
  pick : Expr N → Expr N → Expr N → Expr N
  -- `PPC_LOAD_U8` and the rest by the number of bits, and a plain read of `base + ..`.
  load raw_load : ℕ → Expr N → Expr N
  -- `__sync_bool_compare_and_swap` on `base + ..`.
  swap_if : ℕ → Expr N → Expr N → Expr N → Expr N

pub data Stmt (N : Type 0) : Type 0 where
  set : N → View → Expr N → Stmt N
  set_flag : N → Flag → Expr N → Stmt N
  set_name : N → Expr N → Stmt N
  or_with : N → View → Expr N → Stmt N
  decrement : N → Stmt N
  compare : N → View → Expr N → Expr N → N → Stmt N
  compare_f64 : N → Expr N → Expr N → Stmt N
  -- `PPC_STORE_..`, or `PPC_MM_STORE_..` where the Boolean is true.
  store : Bool → ℕ → Expr N → Expr N → Stmt N
  clear_line : Expr N → ℕ → Stmt N
  when : Expr N → Stmt N → Stmt N
  copy_context : N → Stmt N
  restore_context : N → Stmt N
  set_jump : N → N → Stmt N
  long_jump : N → N → Stmt N
  store_fpscr : Expr N → Stmt N
  -- `ctx.fpscr.enableFlushMode()` and `disableFlushMode()`, or with `Unconditional`.
  flush_mode : Bool → Bool → Stmt N
  call : String → Stmt N
  call_indirect : N → Stmt N
  return_ trap : Stmt N
  goto_ : ℕ → Stmt N
  -- `if (..) {`, `}`, `switch (..) {`, `case ..:`, `default: __builtin_unreachable(); }`.
  open_if : Expr N → Stmt N
  close_if : Stmt N
  open_switch : N → Stmt N
  case_label : ℕ → Stmt N
  close_switch : Stmt N
  error_at : ℕ → Stmt N
  -- A call of a mid-asm hook, alone or as a condition, and the `else {` of the latter.
  hook_call : ℕ → List N → Stmt N
  hook_if : ℕ → List N → Stmt N
  open_else : Stmt N
  -- A comment with the instruction's name or its raw value, and `loc_..:`.
  comment : ℕ → Stmt N
  location : ℕ → Stmt N

-- The names in a piece of text, and the text with other names.
unfoldable pub expr_names : {N : Type 0} → Expr N → List N
expr_names (name n) = n ∷ []
expr_names (field n w) = n ∷ []
expr_names (flag n w) = n ∷ []
expr_names (bin op a b) = expr_names a ++ expr_names b
expr_names (un op a) = expr_names a
expr_names (cast w a) = expr_names a
expr_names (pick c a b) = expr_names c ++ (expr_names a ++ expr_names b)
expr_names (load w a) = expr_names a
expr_names (raw_load w a) = expr_names a
expr_names (swap_if w a b c) = expr_names a ++ (expr_names b ++ expr_names c)
expr_names _ = []

unfoldable pub stmt_names : {N : Type 0} → Stmt N → List N
unfolding expr_names
stmt_names (set n w a) = n ∷ expr_names a
stmt_names (set_flag n w a) = n ∷ expr_names a
stmt_names (set_name n a) = n ∷ expr_names a
stmt_names (or_with n w a) = n ∷ expr_names a
stmt_names (decrement n) = n ∷ []
stmt_names (compare n w a b x) = n ∷ (x ∷ (expr_names a ++ expr_names b))
stmt_names (compare_f64 n a b) = n ∷ (expr_names a ++ expr_names b)
stmt_names (store m w a b) = expr_names a ++ expr_names b
stmt_names (clear_line a k) = expr_names a
stmt_names (when c s) = expr_names c ++ stmt_names s
stmt_names (copy_context n) = n ∷ []
stmt_names (restore_context n) = n ∷ []
stmt_names (set_jump n m) = n ∷ m ∷ []
stmt_names (long_jump n m) = n ∷ m ∷ []
stmt_names (store_fpscr a) = expr_names a
stmt_names (call_indirect n) = n ∷ []
stmt_names (open_if a) = expr_names a
stmt_names (open_switch n) = n ∷ []
stmt_names (hook_call h ns) = ns
stmt_names (hook_if h ns) = ns
stmt_names _ = []

unfoldable pub rename_expr : {N M : Type 0} → (N → M) → Expr N → Expr M
rename_expr f (name n) = name (f n)
rename_expr f (field n w) = field (f n) w
rename_expr f (flag n w) = flag (f n) w
rename_expr f (dec k) = dec k
rename_expr f (hex k) = hex k
rename_expr f (int k) = int k
rename_expr f one_f64 = one_f64
rename_expr f zero_f64 = zero_f64
rename_expr f long_max = long_max
rename_expr f int_max = int_max
rename_expr f long_max_f64 = long_max_f64
rename_expr f int_max_f64 = int_max_f64
rename_expr f rdtsc = rdtsc
rename_expr f from_host = from_host
rename_expr f (bin op a b) = bin op (rename_expr f a) (rename_expr f b)
rename_expr f (un op a) = un op (rename_expr f a)
rename_expr f (cast w a) = cast w (rename_expr f a)
rename_expr f (pick c a b) = pick (rename_expr f c) (rename_expr f a) (rename_expr f b)
rename_expr f (load w a) = load w (rename_expr f a)
rename_expr f (raw_load w a) = raw_load w (rename_expr f a)
rename_expr f (swap_if w a b c) = swap_if w (rename_expr f a) (rename_expr f b) (rename_expr f c)

unfoldable pub map_names : {N M : Type 0} → (N → M) → List N → List M
map_names f [] = []
map_names f (n ∷ ns) = f n ∷ map_names f ns

unfoldable pub rename_stmt : {N M : Type 0} → (N → M) → Stmt N → Stmt M
unfolding rename_expr map_names
rename_stmt f (set n w a) = set (f n) w (rename_expr f a)
rename_stmt f (set_flag n w a) = set_flag (f n) w (rename_expr f a)
rename_stmt f (set_name n a) = set_name (f n) (rename_expr f a)
rename_stmt f (or_with n w a) = or_with (f n) w (rename_expr f a)
rename_stmt f (decrement n) = decrement (f n)
rename_stmt f (compare n w a b x) = compare (f n) w (rename_expr f a) (rename_expr f b) (f x)
rename_stmt f (compare_f64 n a b) = compare_f64 (f n) (rename_expr f a) (rename_expr f b)
rename_stmt f (store m w a b) = store m w (rename_expr f a) (rename_expr f b)
rename_stmt f (clear_line a k) = clear_line (rename_expr f a) k
rename_stmt f (when c s) = when (rename_expr f c) (rename_stmt f s)
rename_stmt f (copy_context n) = copy_context (f n)
rename_stmt f (restore_context n) = restore_context (f n)
rename_stmt f (set_jump n m) = set_jump (f n) (f m)
rename_stmt f (long_jump n m) = long_jump (f n) (f m)
rename_stmt f (store_fpscr a) = store_fpscr (rename_expr f a)
rename_stmt f (flush_mode on known) = flush_mode on known
rename_stmt f (call k) = call k
rename_stmt f (call_indirect n) = call_indirect (f n)
rename_stmt f return_ = return_
rename_stmt f trap = trap
rename_stmt f (goto_ a) = goto_ a
rename_stmt f (open_if a) = open_if (rename_expr f a)
rename_stmt f close_if = close_if
rename_stmt f (open_switch n) = open_switch (f n)
rename_stmt f (case_label k) = case_label k
rename_stmt f close_switch = close_switch
rename_stmt f (error_at a) = error_at a
rename_stmt f (hook_call h ns) = hook_call h (map_names f ns)
rename_stmt f (hook_if h ns) = hook_if h (map_names f ns)
rename_stmt f open_else = open_else
rename_stmt f (comment k) = comment k
rename_stmt f (location a) = location a
