-- ===== src/Emit/Fn/Goto.antt =====
-- Every `goto` of a case goes to the operand of a branch, to a label of the switch table or to a jump
-- of the hook.
use xenon_recomp.Emit.{
  Ref, ctr, Flag, lt, gt, eq, Stmt, call_indirect, return_, close_if, close_switch,
}
use xenon_recomp.Emit.Insn.{
  JumpInst, inst_b, inst_bctr, inst_bctrl, inst_bl, inst_blr, inst_blrl, inst_bnectr, CountInst,
  inst_bdz, inst_bdzlr, inst_bdzf, inst_bdzflr, inst_bdzt, inst_bdztlr, inst_bdnz, inst_bdnzf,
  inst_bdnzflr, inst_bdnzt, inst_bdnztlr, TestInst, inst_beq, inst_beqlr, inst_bge, inst_bgelr,
  inst_bgt, inst_bgtlr, inst_ble, inst_blelr, inst_blt, inst_bltlr, inst_bne, inst_bnelr, InstId,
  add_group, and_group, jump_group, count_group, test_group, compare_group, divide_group,
  float_group, load_group, float_load_group, move_group, multiply_group, rotate_group, shift_group,
  store_group, float_store_group, subtract_group, xor_group, unlisted, Insn,
}
use xenon_recomp.Emit.Config.{SwitchTable, Site, Cmd, forget_csr, lines}
use xenon_recomp.Emit.Plain.{all_plain}
use xenon_recomp.Emit.Plain.Integers.{
  add_case-IsPlain, divide_case-IsPlain, multiply_case-IsPlain, subtract_case-IsPlain,
  and_case-IsPlain, xor_case-IsPlain, compare_case-IsPlain, rotate_case-IsPlain, shift_case-IsPlain,
}
use xenon_recomp.Emit.Plain.Transfers.{
  float_case-IsPlain, load_case-IsPlain, float_load_case-IsPlain, store_case-IsPlain,
  float_store_case-IsPlain, move_case-IsPlain,
}
use xenon_recomp.Emit.Branches.{
  outside, function_call, branch_if, switch_cases, bctr_case, set_link, jump_case, count_case,
  test_case,
}
use xenon_recomp.Emit.Targets.{
  stmt_targets, targets, targets_plain, targets-append, jump_targets, count_targets, test_targets,
  branch_targets, cmd_targets, cmd_targets-lines, cmd_targets-append, function_call-targets,
}
use xenon_recomp.Emit.Translate.{case_at}
use xenon_recomp.Emit.Fn.{table_labels}
use xenon_recomp.Emit.Arith.{add_case, divide_case, multiply_case, subtract_case}
use xenon_recomp.Emit.Logic.{and_case, xor_case, compare_case}
use xenon_recomp.Emit.Shifts.{rotate_case, shift_case}
use xenon_recomp.Emit.Floats.{float_case}
use xenon_recomp.Emit.Loads.{load_case, float_load_case}
use xenon_recomp.Emit.Stores.{store_case, float_store_case}
use xenon_recomp.Emit.Moves.{move_case}
use xenon_recomp.Base.{
  ℕ, suc, ◌≡◌, sym, subst, Bool, true, false, if-elim, List, [], ◌∷◌, ◌++◌, All, All-append, Option,
  none, some,
}

module _ (P : ℕ → Type 0) where
  abbrev pub Goes : List (Stmt Ref) → Type 0
  Goes ss = All P (targets ss)

  pub Goes-append : (xs ys : List (Stmt Ref)) → Goes xs → Goes ys → Goes (xs ++ ys)
  Goes-append xs ys h k =
      subst (All P) (sym (targets-append xs ys)) (All-append P (targets xs) (targets ys) h k)

  Goes-plain : (ss : List (Stmt Ref)) → all_plain ss ≡ true → Goes ss
  Goes-plain ss h = subst (All P) (sym (targets_plain ss h)) tt

  Goes-call : (s : Site) (a : ℕ) → Goes (function_call s a)
  Goes-call s a = subst (All P) (sym (function_call-targets s a)) tt

  pub Goes-lines : (ss : List (Stmt Ref)) → Goes ss → All P (cmd_targets (lines ss))
  Goes-lines ss h = subst (All P) (sym (cmd_targets-lines ss)) h

  Goes-cmds :
      (xs ys : List Cmd)
      → All P (cmd_targets xs)
      → All P (cmd_targets ys)
      → All P (cmd_targets (xs ++ ys))
  Goes-cmds xs ys h k =
      subst (All P) (sym (cmd_targets-append xs ys))
        (All-append P (cmd_targets xs) (cmd_targets ys) h k)

  Goes-switch : (s : Site) (k : ℕ) (ls : List ℕ) → All P ls → Goes (switch_cases s k ls)
  unfolding switch_cases targets stmt_targets
  Goes-switch s k [] h = tt
  Goes-switch s k (l ∷ ls) (h, hs) =
      let rest = Goes-switch s (suc k) ls hs in if-elim Goes (outside s l) rest (h, rest)

  Goes-bctr : (s : Site) (t : Option SwitchTable) → All P (table_labels t) → Goes (bctr_case s t)
  unfolding bctr_case table_labels targets stmt_targets
  Goes-bctr s none h = tt
  Goes-bctr s (some t) h =
      Goes-append (switch_cases s 0 t.labels) (close_switch ∷ []) (Goes-switch s 0 t.labels h) tt

  Goes-link : (s : Site) (ss : List (Stmt Ref)) → Goes ss → Goes (set_link s ++ ss)
  unfolding targets stmt_targets
  Goes-link s ss h = Goes-append (set_link s) ss (if-elim Goes s.config.skip_lr tt tt) h

  jump_case-Goes :
      (s : Site) (x : JumpInst) (i : Insn)
      → All P (jump_targets x i)
      → All P (table_labels s.table)
      → All P (cmd_targets (jump_case s x i))
  unfolding jump_case jump_targets cmd_targets lines stmt_targets targets
  jump_case-Goes s inst_b i h t =
      if-elim (λ (ds : List Cmd). All P (cmd_targets ds)) (outside s (i.operands 0))
        (Goes-lines (function_call s (i.operands 0) ++ (return_ ∷ [])) (
          Goes-append (function_call s (i.operands 0)) (return_ ∷ []) (Goes-call s (i.operands 0))
            tt))
        h
  jump_case-Goes s inst_bctr i h t = Goes-lines (bctr_case s s.table) (Goes-bctr s s.table t)
  jump_case-Goes s inst_bctrl i h t =
      let ss = set_link s ++ (call_indirect ctr ∷ []) in
      Goes-cmds (lines ss) (forget_csr ∷ [])
        (Goes-lines ss (Goes-link s (call_indirect ctr ∷ []) tt)) tt
  jump_case-Goes s inst_bl i h t =
      let call_lines = function_call s (i.operands 0) in
      let ss = set_link s ++ call_lines in
      Goes-cmds (lines ss) (forget_csr ∷ [])
        (Goes-lines ss (Goes-link s call_lines (Goes-call s (i.operands 0)))) tt
  jump_case-Goes s inst_blr i h t = tt
  jump_case-Goes s inst_blrl i h t = tt
  jump_case-Goes s inst_bnectr i h t = tt

  count_case-Goes : (x : CountInst) (i : Insn) → All P (count_targets x i) → Goes (count_case x i)
  unfolding count_case count_targets targets stmt_targets
  count_case-Goes inst_bdz i h = h
  count_case-Goes inst_bdzlr i h = h
  count_case-Goes inst_bdzf i h = h
  count_case-Goes inst_bdzflr i h = h
  count_case-Goes inst_bdzt i h = h
  count_case-Goes inst_bdztlr i h = h
  count_case-Goes inst_bdnz i h = h
  count_case-Goes inst_bdnzf i h = h
  count_case-Goes inst_bdnzflr i h = h
  count_case-Goes inst_bdnzt i h = h
  count_case-Goes inst_bdnztlr i h = h

  branch-Goes :
      (s : Site) (i : Insn) (negated : Bool) (f : Flag)
      → P (i.operands 1)
      → Goes (branch_if s i negated f)
  unfolding branch_if targets stmt_targets
  branch-Goes s i negated f h =
      if-elim Goes (outside s (i.operands 1))
        (Goes-append (function_call s (i.operands 1)) (return_ ∷ close_if ∷ [])
          (Goes-call s (i.operands 1)) tt)
        (h, tt)

  test_case-Goes :
      (s : Site) (x : TestInst) (i : Insn) → All P (test_targets x i) → Goes (test_case s x i)
  unfolding test_case test_targets targets stmt_targets
  test_case-Goes s inst_beq i (h, _) = branch-Goes s i false eq h
  test_case-Goes s inst_beqlr i h = h
  test_case-Goes s inst_bge i (h, _) = branch-Goes s i true lt h
  test_case-Goes s inst_bgelr i h = h
  test_case-Goes s inst_bgt i (h, _) = branch-Goes s i false gt h
  test_case-Goes s inst_bgtlr i h = h
  test_case-Goes s inst_ble i (h, _) = branch-Goes s i true gt h
  test_case-Goes s inst_blelr i h = h
  test_case-Goes s inst_blt i (h, _) = branch-Goes s i false lt h
  test_case-Goes s inst_bltlr i h = h
  test_case-Goes s inst_bne i (h, _) = branch-Goes s i true eq h
  test_case-Goes s inst_bnelr i h = h

  -- The steps of a case that the switch has.
  abbrev pub CmdsGo : Option (List Cmd) → Type 0
  CmdsGo none = Unit
  CmdsGo (some ds) = All P (cmd_targets ds)

  plain-Goes : (ss : List (Stmt Ref)) → all_plain ss ≡ true → All P (cmd_targets (lines ss))
  plain-Goes ss h = Goes-lines ss (Goes-plain ss h)

  pub case_at-Goes :
      (s : Site) (id : InstId) (i : Insn)
      → All P (branch_targets id i)
      → All P (table_labels s.table)
      → CmdsGo (case_at s id i)
  unfolding case_at branch_targets cmd_targets
  case_at-Goes s (add_group x) i h t = plain-Goes (add_case x i) (add_case-IsPlain x i)
  case_at-Goes s (and_group x) i h t = plain-Goes (and_case x i) (and_case-IsPlain x i)
  case_at-Goes s (jump_group x) i h t = jump_case-Goes s x i h t
  case_at-Goes s (count_group x) i h t = Goes-lines (count_case x i) (count_case-Goes x i h)
  case_at-Goes s (test_group x) i h t = Goes-lines (test_case s x i) (test_case-Goes s x i h)
  case_at-Goes s (compare_group x) i h t = plain-Goes (compare_case x i) (compare_case-IsPlain x i)
  case_at-Goes s (divide_group x) i h t = plain-Goes (divide_case x i) (divide_case-IsPlain x i)
  case_at-Goes s (float_group x) i h t = plain-Goes (float_case x i) (float_case-IsPlain x i)
  case_at-Goes s (load_group x) i h t = plain-Goes (load_case x i) (load_case-IsPlain x i)
  case_at-Goes s (float_load_group x) i h t =
      plain-Goes (float_load_case x i) (float_load_case-IsPlain x i)
  case_at-Goes s (move_group x) i h t =
      plain-Goes (move_case s.config x i) (move_case-IsPlain s.config x i)
  case_at-Goes s (multiply_group x) i h t =
      plain-Goes (multiply_case x i) (multiply_case-IsPlain x i)
  case_at-Goes s (rotate_group x) i h t = plain-Goes (rotate_case x i) (rotate_case-IsPlain x i)
  case_at-Goes s (shift_group x) i h t = plain-Goes (shift_case x i) (shift_case-IsPlain x i)
  case_at-Goes s (store_group x) i h t =
      plain-Goes (store_case s.mmio x i) (store_case-IsPlain s.mmio x i)
  case_at-Goes s (float_store_group x) i h t =
      plain-Goes (float_store_case s.mmio x i) (float_store_case-IsPlain s.mmio x i)
  case_at-Goes s (subtract_group x) i h t =
      plain-Goes (subtract_case x i) (subtract_case-IsPlain x i)
  case_at-Goes s (xor_group x) i h t = plain-Goes (xor_case x i) (xor_case-IsPlain x i)
  case_at-Goes s (unlisted k) i h t = tt
