-- ===== src/Emit/Branches.antt =====
-- The cases of `Recompiler::Recompile` for branches, with `printFunctionCall` and
-- `printConditionalBranch`.
use xenon_recomp.Emit.{
  Ref, gpr, crf, ctr, temp, env, link, u32, s64, Flag, lt, gt, eq, BinOp, equal, differs, both,
  falsify, Expr, name, field, flag, dec, hex, bin, un, Stmt, set_name, decrement, when,
  copy_context, restore_context, set_jump, long_jump, call, call_indirect, return_, trap, goto_,
  open_if, close_if, open_switch, case_label, close_switch, error_at,
}
use xenon_recomp.Emit.Insn.{
  JumpInst, inst_b, inst_bctr, inst_bctrl, inst_bl, inst_blr, inst_blrl, inst_bnectr, CountInst,
  inst_bdz, inst_bdzlr, inst_bdzf, inst_bdzflr, inst_bdzt, inst_bdztlr, inst_bdnz, inst_bdnzf,
  inst_bdnzflr, inst_bdnzt, inst_bdnztlr, TestInst, inst_beq, inst_beqlr, inst_bge, inst_bgelr,
  inst_bgt, inst_bgtlr, inst_ble, inst_blelr, inst_blt, inst_bltlr, inst_bne, inst_bnelr, Insn,
  op_cr,
}
use xenon_recomp.Emit.Config.{SwitchTable, Site, Cmd, forget_csr, lines}
use xenon_recomp.Emit.Moves.{cr_flag}
use text.Mathlib.Text.{starts_with}
use xenon_recomp.Base.{
  ℕ, suc, ◌+◌, ◌/◌, Bool, true, false, ◌&&◌, ◌||◌, ltb, leb, ◌==◌, if◌then◌else◌, Option, none,
  some, List, [], ◌∷◌, ◌++◌,
}
use xenon_recomp.Symbols.{Symbol, SymbolType, symbol_function, find_symbol}

-- Whether an address is outside the function. `fn.base + fn.size` is a `size_t`.
unfoldable pub outside : Site → ℕ → Bool
outside s a = ltb a s.fn_base || leb (s.fn_base + s.fn_size) a

abbrev is_function : SymbolType → Bool
is_function symbol_function = true
is_function _ = false

-- Whether a symbol is a function at the address, and whether its registers are local, so that it is
-- not called.
unfoldable pub names_function : ℕ → Symbol → Bool
names_function a t = t.address == a && is_function t.type

unfoldable pub saves_locals : Site → Symbol → Bool
saves_locals s t =
    s.config.non_volatile_as_local && (starts_with t.name "__rest" || starts_with t.name "__save")

-- The call by the symbol that is found.
unfoldable pub call_symbol : Site → ℕ → Option Symbol → List (Stmt Ref)
unfolding names_function saves_locals
call_symbol s a none = error_at a ∷ []
call_symbol s a (some t) =
    if names_function a t
    then if saves_locals s t then [] else call t.name ∷ []
    else error_at a ∷ []

-- `printFunctionCall`.
unfoldable pub function_call : Site → ℕ → List (Stmt Ref)
unfolding call_symbol
function_call s a =
    if a == s.config.long_jmp_address
    then long_jump (gpr 3) (gpr 4) ∷ []
    else if a == s.config.set_jmp_address
    then copy_context env
      ∷ set_jump temp (gpr 3)
      ∷ when (bin differs (field temp s64) (dec 0)) (restore_context env)
      ∷ set_name (gpr 3) (name temp)
      ∷ []
    else call_symbol s a (find_symbol a s.symbols)

-- A branch's condition: a flag, or its negation.
abbrev condition : Bool → Ref → Flag → Expr Ref
condition negated n f = if negated then un falsify (flag n f) else flag n f

-- `printConditionalBranch`.
unfoldable pub branch_if : Site → Insn → Bool → Flag → List (Stmt Ref)
unfolding outside function_call
branch_if s i negated f =
    if outside s (i.operands 1)
    then open_if (condition negated (op_cr i 0) f) ∷ function_call s (i.operands 1)
      ++ (return_ ∷ close_if ∷ [])
    else when (condition negated (op_cr i 0) f) (goto_ (i.operands 1)) ∷ []

abbrev return_if : Insn → Bool → Flag → List (Stmt Ref)
return_if i negated f = when (condition negated (op_cr i 0) f) return_ ∷ []

-- The cases of a switch, numbered from `k`.
unfoldable pub switch_cases : Site → ℕ → List ℕ → List (Stmt Ref)
unfolding outside
switch_cases s k [] = []
switch_cases s k (l ∷ ls) =
    let rest = switch_cases s (suc k) ls in
    if outside s l
    then case_label k ∷ error_at l ∷ return_ ∷ rest
    else case_label k ∷ goto_ l ∷ rest

-- `BCTR`, by the switch table.
unfoldable pub bctr_case : Site → Option SwitchTable → List (Stmt Ref)
unfolding switch_cases
bctr_case s none = call_indirect ctr ∷ return_ ∷ []
bctr_case s (some t) = open_switch (gpr t.r) ∷ switch_cases s 0 t.labels ++ (close_switch ∷ [])

-- `ctx.lr = ..`, which `skipLr` leaves out.
abbrev pub set_link : Site → List (Stmt Ref)
set_link s = if s.config.skip_lr then [] else set_name link (hex (s.address + 4)) ∷ []

-- `B` to `BCTRL`, `BL`, `BLR`, `BLRL` and `BNECTR`.
unfoldable pub jump_case : Site → JumpInst → Insn → List Cmd
unfolding outside function_call bctr_case lines
jump_case s inst_b i =
    if outside s (i.operands 0)
    then lines (function_call s (i.operands 0) ++ (return_ ∷ []))
    else lines (goto_ (i.operands 0) ∷ [])
jump_case s inst_bctr i = lines (bctr_case s s.table)
jump_case s inst_bctrl i = lines (set_link s ++ (call_indirect ctr ∷ [])) ++ (forget_csr ∷ [])
jump_case s inst_bl i = lines (set_link s ++ function_call s (i.operands 0)) ++ (forget_csr ∷ [])
jump_case s inst_blr i = lines (return_ ∷ [])
jump_case s inst_blrl i = lines (trap ∷ [])
jump_case s inst_bnectr i =
    lines (open_if (un falsify (flag (op_cr i 0) eq)) ∷ call_indirect ctr ∷ return_ ∷ close_if ∷ [])

-- The lines of a decrement with the counter's test, alone or with a flag.
abbrev count_line : BinOp → Stmt Ref → List (Stmt Ref)
count_line op target = decrement ctr ∷ when (bin op (field ctr u32) (dec 0)) target ∷ []

abbrev count_flag_line : BinOp → Bool → Insn → Stmt Ref → List (Stmt Ref)
count_flag_line op negated i target =
    decrement ctr
    ∷ when
        (bin both (bin op (field ctr u32) (dec 0))
          (condition negated (crf (i.operands 0 / 4)) (cr_flag (i.operands 0))))
        target
    ∷ []

-- `BDZ` to `BDNZTLR`.
unfoldable pub count_case : CountInst → Insn → List (Stmt Ref)
unfolding cr_flag
count_case inst_bdz i = count_line equal (goto_ (i.operands 0))
count_case inst_bdzlr i = count_line equal return_
count_case inst_bdzf i = count_flag_line equal true i (goto_ (i.operands 1))
count_case inst_bdzflr i = count_flag_line equal true i return_
count_case inst_bdzt i = count_flag_line equal false i (goto_ (i.operands 1))
count_case inst_bdztlr i = count_flag_line equal false i return_
count_case inst_bdnz i = count_line differs (goto_ (i.operands 0))
count_case inst_bdnzf i = count_flag_line differs true i (goto_ (i.operands 1))
count_case inst_bdnzflr i = count_flag_line differs true i return_
count_case inst_bdnzt i = count_flag_line differs false i (goto_ (i.operands 1))
count_case inst_bdnztlr i = count_flag_line differs false i return_

-- `BEQ` to `BNELR`.
unfoldable pub test_case : Site → TestInst → Insn → List (Stmt Ref)
unfolding branch_if
test_case s inst_beq i = branch_if s i false eq
test_case s inst_beqlr i = return_if i false eq
test_case s inst_bge i = branch_if s i true lt
test_case s inst_bgelr i = return_if i true lt
test_case s inst_bgt i = branch_if s i false gt
test_case s inst_bgtlr i = return_if i false gt
test_case s inst_ble i = branch_if s i true gt
test_case s inst_blelr i = return_if i true gt
test_case s inst_blt i = branch_if s i false lt
test_case s inst_bltlr i = return_if i false lt
test_case s inst_bne i = branch_if s i true eq
test_case s inst_bnelr i = return_if i true eq
