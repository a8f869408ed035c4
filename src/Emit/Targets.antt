-- ===== src/Emit/Targets.antt =====
-- Where the printed `goto`s go: to the targets of branches, switch tables and hooks.
use xenon_recomp.Emit.{
  Ref, Stmt, set, set_flag, set_name, or_with, decrement, compare, compare_f64, store, clear_line,
  when, copy_context, restore_context, set_jump, long_jump, store_fpscr, flush_mode, call,
  call_indirect, return_, trap, goto_, open_if, close_if, open_switch, case_label, close_switch,
  error_at, hook_call, hook_if, open_else, comment, location, rename_stmt,
}
use xenon_recomp.Emit.Insn.{
  JumpInst, inst_b, CountInst, inst_bdz, inst_bdzf, inst_bdzt, inst_bdnz, inst_bdnzf, inst_bdnzt,
  TestInst, inst_beq, inst_bge, inst_bgt, inst_ble, inst_blt, inst_bne, InstId, jump_group,
  count_group, test_group, Insn,
}
use xenon_recomp.Emit.Config.{Site, Cmd, println, set_flush_mode, forget_csr, lines}
use xenon_recomp.Emit.Plain.{is_plain, all_plain, and_split}
use xenon_recomp.Emit.Branches.{names_function, saves_locals, call_symbol, function_call}
use mathlib.Core.List.{append_assoc}
use xenon_recomp.Symbols.{Symbol, find_symbol}
use mathlib.Core.Bool.{false≢true}
use xenon_recomp.Base.{
  ℕ, ◌≡◌, refl, ap, ◌∙◌, sym, true, ◌==◌, if◌then◌else◌, if-elim, List, [], ◌∷◌, ◌++◌, Option, none,
  some,
}

-- The targets of the `goto`s in a text.
unfoldable pub stmt_targets : {N : Type 0} → Stmt N → List ℕ
stmt_targets (goto_ a) = a ∷ []
stmt_targets (when c s) = stmt_targets s
stmt_targets _ = []

unfoldable pub targets : {N : Type 0} → List (Stmt N) → List ℕ
unfolding stmt_targets
targets [] = []
targets (s ∷ ss) = stmt_targets s ++ targets ss

stmt_targets_plain : {N : Type 0} (s : Stmt N) → is_plain s ≡ true → stmt_targets s ≡ []
unfolding stmt_targets is_plain
stmt_targets_plain (set a b c) h = refl
stmt_targets_plain (set_flag a b c) h = refl
stmt_targets_plain (set_name a b) h = refl
stmt_targets_plain (or_with a b c) h = refl
stmt_targets_plain (decrement a) h = refl
stmt_targets_plain (compare a b c d e) h = refl
stmt_targets_plain (compare_f64 a b c) h = refl
stmt_targets_plain (store a b c d) h = refl
stmt_targets_plain (clear_line a b) h = refl
stmt_targets_plain (when a s) h = stmt_targets_plain s h
stmt_targets_plain (copy_context a) h = absurd (false≢true h)
stmt_targets_plain (restore_context a) h = absurd (false≢true h)
stmt_targets_plain (set_jump a b) h = absurd (false≢true h)
stmt_targets_plain (long_jump a b) h = absurd (false≢true h)
stmt_targets_plain (store_fpscr a) h = refl
stmt_targets_plain (flush_mode a b) h = absurd (false≢true h)
stmt_targets_plain (call a) h = absurd (false≢true h)
stmt_targets_plain (call_indirect a) h = absurd (false≢true h)
stmt_targets_plain return_ h = absurd (false≢true h)
stmt_targets_plain trap h = absurd (false≢true h)
stmt_targets_plain (goto_ a) h = absurd (false≢true h)
stmt_targets_plain (open_if a) h = absurd (false≢true h)
stmt_targets_plain close_if h = absurd (false≢true h)
stmt_targets_plain (open_switch a) h = absurd (false≢true h)
stmt_targets_plain (case_label a) h = absurd (false≢true h)
stmt_targets_plain close_switch h = absurd (false≢true h)
stmt_targets_plain (error_at a) h = absurd (false≢true h)
stmt_targets_plain (hook_call a b) h = absurd (false≢true h)
stmt_targets_plain (hook_if a b) h = absurd (false≢true h)
stmt_targets_plain open_else h = absurd (false≢true h)
stmt_targets_plain (comment a) h = refl
stmt_targets_plain (location a) h = absurd (false≢true h)

-- Lines that only compute go nowhere.
pub targets_plain : {N : Type 0} (ss : List (Stmt N)) → all_plain ss ≡ true → targets ss ≡ []
unfolding targets all_plain
targets_plain [] h = refl
targets_plain (s ∷ ss) h =
    let (hs, hss) = and_split (is_plain s) (all_plain ss) h in
    rw (stmt_targets_plain s hs) (targets_plain ss hss)

pub targets-append :
    {N : Type 0} (xs ys : List (Stmt N)) → targets (xs ++ ys) ≡ targets xs ++ targets ys
unfolding targets
targets-append [] ys = refl
targets-append (x ∷ xs) ys =
    ap (λ t. stmt_targets x ++ t) (targets-append xs ys)
    ∙ sym (append_assoc (stmt_targets x) (targets xs) (targets ys))

-- The operand that a branch instruction goes to.
unfoldable pub jump_targets : JumpInst → Insn → List ℕ
jump_targets inst_b i = i.operands 0 ∷ []
jump_targets _ i = []

unfoldable pub count_targets : CountInst → Insn → List ℕ
count_targets inst_bdz i = i.operands 0 ∷ []
count_targets inst_bdzf i = i.operands 1 ∷ []
count_targets inst_bdzt i = i.operands 1 ∷ []
count_targets inst_bdnz i = i.operands 0 ∷ []
count_targets inst_bdnzf i = i.operands 1 ∷ []
count_targets inst_bdnzt i = i.operands 1 ∷ []
count_targets _ i = []

unfoldable pub test_targets : TestInst → Insn → List ℕ
test_targets inst_beq i = i.operands 1 ∷ []
test_targets inst_bge i = i.operands 1 ∷ []
test_targets inst_bgt i = i.operands 1 ∷ []
test_targets inst_ble i = i.operands 1 ∷ []
test_targets inst_blt i = i.operands 1 ∷ []
test_targets inst_bne i = i.operands 1 ∷ []
test_targets _ i = []

unfoldable pub branch_targets : InstId → Insn → List ℕ
branch_targets (jump_group x) i = jump_targets x i
branch_targets (count_group x) i = count_targets x i
branch_targets (test_group x) i = test_targets x i
branch_targets _ i = []

-- The targets of the lines among the steps of a case.
unfoldable pub cmd_targets : List Cmd → List ℕ
unfolding stmt_targets
cmd_targets [] = []
cmd_targets (println s ∷ ds) = stmt_targets s ++ cmd_targets ds
cmd_targets (set_flush_mode on ∷ ds) = cmd_targets ds
cmd_targets (forget_csr ∷ ds) = cmd_targets ds

pub cmd_targets-lines : (ss : List (Stmt Ref)) → cmd_targets (lines ss) ≡ targets ss
unfolding cmd_targets lines targets
cmd_targets-lines [] = refl
cmd_targets-lines (s ∷ ss) = ap (λ t. stmt_targets s ++ t) (cmd_targets-lines ss)

pub cmd_targets-append :
    (xs ys : List Cmd) → cmd_targets (xs ++ ys) ≡ cmd_targets xs ++ cmd_targets ys
unfolding cmd_targets
cmd_targets-append [] ys = refl
cmd_targets-append (println s ∷ xs) ys =
    ap (λ t. stmt_targets s ++ t) (cmd_targets-append xs ys)
    ∙ sym (append_assoc (stmt_targets s) (cmd_targets xs) (cmd_targets ys))
cmd_targets-append (set_flush_mode on ∷ xs) ys = cmd_targets-append xs ys
cmd_targets-append (forget_csr ∷ xs) ys = cmd_targets-append xs ys

-- A call goes nowhere in the function.
call_symbol-targets : (s : Site) (a : ℕ) (o : Option Symbol) → targets (call_symbol s a o) ≡ []
unfolding call_symbol targets stmt_targets
call_symbol-targets s a none = refl
call_symbol-targets s a (some t) =
    if-elim (λ (ss : List (Stmt Ref)). targets ss ≡ []) (names_function a t)
      {x = if saves_locals s t then [] else call t.name ∷ []} {y = error_at a ∷ []}
      (if-elim (λ (ss : List (Stmt Ref)). targets ss ≡ []) (saves_locals s t) {x = []}
        {y = call t.name ∷ []} refl refl)
      refl

pub function_call-targets : (s : Site) (a : ℕ) → targets (function_call s a) ≡ []
unfolding function_call targets stmt_targets
function_call-targets s a =
    if-elim (λ (ss : List (Stmt Ref)). targets ss ≡ []) (a == s.config.long_jmp_address) refl
      (if-elim (λ (ss : List (Stmt Ref)). targets ss ≡ []) (a == s.config.set_jmp_address) refl
        (call_symbol-targets s a (find_symbol a s.symbols)))

-- A renaming changes no target.
pub stmt_targets-rename :
    {N M : Type 0} (f : N → M) (s : Stmt N) → stmt_targets (rename_stmt f s) ≡ stmt_targets s
unfolding stmt_targets rename_stmt
stmt_targets-rename f (set a b c) = refl
stmt_targets-rename f (set_flag a b c) = refl
stmt_targets-rename f (set_name a b) = refl
stmt_targets-rename f (or_with a b c) = refl
stmt_targets-rename f (decrement a) = refl
stmt_targets-rename f (compare a b c d e) = refl
stmt_targets-rename f (compare_f64 a b c) = refl
stmt_targets-rename f (store a b c d) = refl
stmt_targets-rename f (clear_line a b) = refl
stmt_targets-rename f (when a b) = stmt_targets-rename f b
stmt_targets-rename f (copy_context a) = refl
stmt_targets-rename f (restore_context a) = refl
stmt_targets-rename f (set_jump a b) = refl
stmt_targets-rename f (long_jump a b) = refl
stmt_targets-rename f (store_fpscr a) = refl
stmt_targets-rename f (flush_mode a b) = refl
stmt_targets-rename f (call a) = refl
stmt_targets-rename f (call_indirect a) = refl
stmt_targets-rename f return_ = refl
stmt_targets-rename f trap = refl
stmt_targets-rename f (goto_ a) = refl
stmt_targets-rename f (open_if a) = refl
stmt_targets-rename f close_if = refl
stmt_targets-rename f (open_switch a) = refl
stmt_targets-rename f (case_label a) = refl
stmt_targets-rename f close_switch = refl
stmt_targets-rename f (error_at a) = refl
stmt_targets-rename f (hook_call a b) = refl
stmt_targets-rename f (hook_if a b) = refl
stmt_targets-rename f open_else = refl
stmt_targets-rename f (comment a) = refl
stmt_targets-rename f (location a) = refl
