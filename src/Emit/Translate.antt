-- ===== src/Emit/Translate.antt =====
-- `Recompiler::Recompile` of an instruction: the names that the lambdas return and record, the flush
-- mode, the mid-asm hooks and the switch.
use xenon_recomp.Emit.{
  Ref, gpr, fpr, vec, crf, ctr, xer, reserved, temp, v_temp, env, ea, link, msr, fpscr, same_ref,
  Var, Stmt, flush_mode, return_, goto_, close_if, hook_call, hook_if, open_else, comment,
  stmt_names, rename_stmt,
}
use xenon_recomp.Emit.Insn.{
  InstId, add_group, and_group, jump_group, count_group, test_group, compare_group, divide_group,
  float_group, load_group, float_load_group, move_group, multiply_group, rotate_group, shift_group,
  store_group, float_store_group, subtract_group, xor_group, unlisted, Insn,
}
use xenon_recomp.Emit.Config.{Hook, Config, Site, Cmd, println, set_flush_mode, forget_csr, lines}
use xenon_recomp.Emit.Branches.{jump_case, count_case, test_case}
use xenon_recomp.Emit.Arith.{add_case, divide_case, multiply_case, subtract_case}
use xenon_recomp.Emit.Logic.{and_case, xor_case, compare_case}
use xenon_recomp.Emit.Shifts.{rotate_case, shift_case}
use xenon_recomp.Emit.Loads.{load_case, float_load_case}
use xenon_recomp.Emit.Stores.{store_case, float_store_case}
use xenon_recomp.Emit.Floats.{float_case}
use xenon_recomp.Emit.Moves.{move_case}
use xenon_recomp.Base.{
  ℕ, Bool, true, false, not, ◌&&◌, ◌||◌, leb, ◌==◌, if◌then◌else◌, Option, none, some, List, [],
  ◌∷◌, ◌++◌,
}

-- `RecompilerLocalVariables`: the flag of each name. `link`, `msr` and `fpscr` have none in the
-- struct, and theirs stay false.
abbrev pub Locals : Type 0
Locals = Ref → Bool

pub data CsrState : Type 0 where
  unknown fpu vmx : CsrState

-- What one function's translation changes: the text, the local variables and the CSR state.
pub record EmitState : Type 0 where
  pub out : List (Stmt Var)
  pub locals : Locals
  pub csr : CsrState

-- The condition of the lambdas `r`, `f` and `v`.
unfoldable pub r_is_local : Config → ℕ → Bool
r_is_local c k =
    c.non_argument_as_local && (k == 0 || k == 2 || k == 11 || k == 12)
    || c.non_volatile_as_local && leb 14 k

unfoldable pub f_is_local : Config → ℕ → Bool
f_is_local c k = c.non_argument_as_local && (k == 0) || c.non_volatile_as_local && leb 14 k

unfoldable pub v_is_local : Config → ℕ → Bool
v_is_local c k =
    c.non_argument_as_local && (leb 32 k && leb k 63)
    || c.non_volatile_as_local && (leb 14 k && leb k 31 || leb 64 k && leb k 127)

-- Whether a lambda returns a local variable's name.
unfoldable pub is_local : Config → Ref → Bool
unfolding r_is_local f_is_local v_is_local
is_local c (gpr k) = r_is_local c k
is_local c (fpr k) = f_is_local c k
is_local c (vec k) = v_is_local c k
is_local c (crf k) = c.cr_as_local
is_local c ctr = c.ctr_as_local
is_local c xer = c.xer_as_local
is_local c reserved = c.reserved_as_local
is_local c temp = true
is_local c v_temp = true
is_local c env = true
is_local c ea = true
is_local c link = false
is_local c msr = false
is_local c fpscr = false

-- The name that a lambda returns.
unfoldable pub var_of : Config → Ref → Var
unfolding is_local
var_of c n = record { local = is_local c n; ref = n }

-- `localVariables.r[index] = true` and the rest.
unfoldable pub record_local : Ref → Locals → Locals
unfolding same_ref
record_local n l m = same_ref n m || l m

-- One call of a lambda, and those of a line.
unfoldable pub use_name : Config → Ref → Locals → Locals
unfolding is_local record_local
use_name c n l = if is_local c n then record_local n l else l

unfoldable pub use_names : Config → List Ref → Locals → Locals
use_names c [] l = l
use_names c (n ∷ ns) l = use_names c ns (use_name c n l)

-- `println` of a line.
unfoldable pub emit_line : Config → Stmt Ref → EmitState → EmitState
unfolding var_of use_names
emit_line c s e = record e {
  out = e.out ++ (rename_stmt (var_of c) s ∷ []);
  locals = use_names c (stmt_names s) e.locals;
}

abbrev pub target_state : Bool → CsrState
target_state enable = if enable then vmx else fpu

abbrev pub same_csr : CsrState → CsrState → Bool
same_csr unknown unknown = true
same_csr fpu fpu = true
same_csr vmx vmx = true
same_csr _ _ = false

-- `printSetFlushMode`.
unfoldable pub emit_flush_mode : Config → Bool → EmitState → EmitState
unfolding emit_line
emit_flush_mode c enable e =
    if same_csr e.csr (target_state enable)
    then e
    else record (emit_line c (flush_mode enable (not (same_csr e.csr unknown))) e) {
      csr = target_state enable;
    }

unfoldable pub run_cmd : Config → Cmd → EmitState → EmitState
unfolding emit_line emit_flush_mode
run_cmd c (println s) e = emit_line c s e
run_cmd c (set_flush_mode enable) e = emit_flush_mode c enable e
run_cmd c forget_csr e = record e { csr = unknown }

unfoldable pub run_cmds : Config → List Cmd → EmitState → EmitState
unfolding run_cmd
run_cmds c [] e = e
run_cmds c (d ∷ ds) e = run_cmds c ds (run_cmd c d e)

-- The switch by the id: none is its `default`.
unfoldable pub case_at : Site → InstId → Insn → Option (List Cmd)
unfolding lines
case_at s (add_group x) i = some (lines (add_case x i))
case_at s (and_group x) i = some (lines (and_case x i))
case_at s (jump_group x) i = some (jump_case s x i)
case_at s (count_group x) i = some (lines (count_case x i))
case_at s (test_group x) i = some (lines (test_case s x i))
case_at s (compare_group x) i = some (lines (compare_case x i))
case_at s (divide_group x) i = some (lines (divide_case x i))
case_at s (float_group x) i = some (set_flush_mode false ∷ lines (float_case x i))
case_at s (load_group x) i = some (lines (load_case x i))
case_at s (float_load_group x) i = some (set_flush_mode false ∷ lines (float_load_case x i))
case_at s (move_group x) i = some (lines (move_case s.config x i))
case_at s (multiply_group x) i = some (lines (multiply_case x i))
case_at s (rotate_group x) i = some (lines (rotate_case x i))
case_at s (shift_group x) i = some (lines (shift_case x i))
case_at s (store_group x) i = some (lines (store_case s.mmio x i))
case_at s (float_store_group x) i =
    some (set_flush_mode false ∷ lines (float_store_case s.mmio x i))
case_at s (subtract_group x) i = some (lines (subtract_case x i))
case_at s (xor_group x) i = some (lines (xor_case x i))
case_at s (unlisted k) i = none

-- Where a hook goes on: a return, a jump unless the address is 0, or neither.
unfoldable pub hook_exit : Bool → ℕ → List (Stmt Ref)
hook_exit returns a = if returns then return_ ∷ [] else if a == 0 then [] else goto_ a ∷ []

abbrev pub returns_bool : Hook → Bool
returns_bool h =
    h.return_on_false || h.return_on_true || not (h.jump_on_false == 0) || not (h.jump_on_true == 0)

-- `printMidAsmHook`.
unfoldable pub hook_lines : Hook → List (Stmt Ref)
unfolding hook_exit
hook_lines h =
    if returns_bool h
    then hook_if h.id h.registers ∷ hook_exit h.return_on_true h.jump_on_true
      ++ (close_if ∷ open_else ∷ hook_exit h.return_on_false h.jump_on_false)
      ++ (close_if ∷ [])
    else hook_call h.id h.registers ∷ hook_exit h.ret h.jump_address

-- The hook of the address where it belongs on this side of the instruction.
unfoldable pub hook_cmds : Bool → Option Hook → List Cmd
unfolding hook_lines lines
hook_cmds after none = []
hook_cmds after (some h) =
    if after
    then if h.after_instruction then lines (hook_lines h) else []
    else if h.after_instruction
    then []
    else lines (hook_lines h)

-- The switch and what is behind it, with the result.
unfoldable pub run_case : Site → Option (List Cmd) → EmitState → EmitState × Bool
unfolding run_cmds hook_cmds
run_case s none e = (e, false)
run_case s (some cs) e =
    (run_cmds s.config (cs ++ hook_cmds true (s.config.hooks s.address)) e, true)

-- `Recompiler::Recompile` of an instruction; the result is false where the id is not listed.
unfoldable pub recompile_insn : Site → Insn → EmitState → EmitState × Bool
unfolding run_cmds hook_cmds run_case case_at
recompile_insn s i e =
    run_case s (case_at s i.id i)
      (run_cmds s.config (println (comment 0) ∷ hook_cmds false (s.config.hooks s.address)) e)
