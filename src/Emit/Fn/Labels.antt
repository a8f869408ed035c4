-- ===== src/Emit/Fn/Labels.antt =====
-- Every `goto` into the range that a function is printed for has its label there.
use xenon_recomp.Emit.{Ref, Stmt, goto_, close_if, hook_if, open_else, comment, rename_stmt}
use xenon_recomp.Emit.Insn.{Insn}
use xenon_recomp.Emit.Config.{Hook, Config, Site, Cmd, println, set_flush_mode, forget_csr}
use xenon_recomp.Emit.Targets.{
  stmt_targets, targets, targets-append, branch_targets, cmd_targets, cmd_targets-append,
  stmt_targets-rename,
}
use xenon_recomp.Emit.Translate.{
  unknown, EmitState, var_of, emit_line, target_state, same_csr, emit_flush_mode, run_cmd, run_cmds,
  case_at, hook_exit, returns_bool, hook_lines, hook_cmds, run_case, recompile_insn,
}
use xenon_recomp.Emit.Fn.{table_labels, nonzero, hook_labels}
use xenon_recomp.Emit.Fn.Goto.{Goes, Goes-append, Goes-lines, CmdsGo, case_at-Goes}
use xenon_recomp.Base.{
  ℕ, sym, subst, Bool, true, false, ◌==◌, if◌then◌else◌, if-elim, List, [], ◌∷◌, ◌++◌, All,
  All-append, Option, none, some,
}

module _ (P : ℕ → Type 0) where
  jump-Goes :
      (zero_address : Bool) (a : ℕ)
      → All P (if zero_address then [] else a ∷ [])
      → Goes P (if zero_address then [] else goto_ a ∷ [])
  unfolding targets stmt_targets
  jump-Goes true a h = tt
  jump-Goes false a h = h

  exit-Goes : (returns : Bool) (a : ℕ) → All P (nonzero a) → Goes P (hook_exit returns a)
  unfolding hook_exit targets stmt_targets
  exit-Goes true a h = tt
  exit-Goes false a h = jump-Goes (a == 0) a h

  pub All-split : (xs ys : List ℕ) → All P (xs ++ ys) → All P xs × All P ys
  All-split [] ys h = (tt, h)
  All-split (x ∷ xs) ys (h, hs) = let (l, r) = All-split xs ys hs in ((h, l), r)

  hook_lines-Goes : (h : Hook) → All P (hook_labels (some h)) → Goes P (hook_lines h)
  unfolding hook_lines hook_labels targets stmt_targets
  hook_lines-Goes h labels =
      let (first, on_false) =
        All-split (nonzero h.jump_address ++ nonzero h.jump_on_true) (nonzero h.jump_on_false)
          labels in
      let (always, on_true) = All-split (nonzero h.jump_address) (nonzero h.jump_on_true) first in
      let no = hook_exit h.return_on_false h.jump_on_false in
      let yes_lines = hook_exit h.return_on_true h.jump_on_true in
      let no_goes = exit-Goes h.return_on_false h.jump_on_false on_false in
      if-elim (Goes P) (returns_bool h)
        (Goes-append P (hook_if h.id h.registers ∷ yes_lines ++ (close_if ∷ open_else ∷ no))
          (close_if ∷ [])
          (Goes-append P (hook_if h.id h.registers ∷ yes_lines) (close_if ∷ open_else ∷ no)
            (exit-Goes h.return_on_true h.jump_on_true on_true) no_goes)
          tt)
        (exit-Goes h.ret h.jump_address always)

  pub hook_cmds-Goes :
      (after : Bool) (o : Option Hook)
      → All P (hook_labels o)
      → All P (cmd_targets (hook_cmds after o))
  unfolding hook_cmds cmd_targets
  hook_cmds-Goes after none h = tt
  hook_cmds-Goes true (some k) h =
      if-elim (λ ds. All P (cmd_targets ds)) k.after_instruction
        (Goes-lines P (hook_lines k) (hook_lines-Goes k h)) tt
  hook_cmds-Goes false (some k) h =
      if-elim (λ ds. All P (cmd_targets ds)) k.after_instruction tt
        (Goes-lines P (hook_lines k) (hook_lines-Goes k h))

  -- The targets of a text.
  abbrev pub TextGoes : EmitState → Type 0
  TextGoes e = All P (targets e.out)

  pub emit_line-Goes :
      (c : Config) (s : Stmt Ref) (e : EmitState)
      → All P (stmt_targets s)
      → TextGoes e
      → TextGoes (emit_line c s e)
  unfolding emit_line targets
  emit_line-Goes c s e h k =
      let line = rename_stmt (var_of c) s in
      subst (All P) (sym (targets-append e.out (line ∷ []))) (
        All-append P (targets e.out) (targets (line ∷ [])) k (
          All-append P (stmt_targets line) []
            (subst (All P) (sym (stmt_targets-rename (var_of c) s)) h) tt))

  run_cmds-Goes :
      (c : Config) (ds : List Cmd) (e : EmitState)
      → All P (cmd_targets ds)
      → TextGoes e
      → TextGoes (run_cmds c ds e)
  unfolding run_cmds run_cmd cmd_targets emit_flush_mode stmt_targets
  run_cmds-Goes c [] e h k = k
  run_cmds-Goes c (println s ∷ ds) e h k =
      let (hs, hds) = All-split (stmt_targets s) (cmd_targets ds) h in
      run_cmds-Goes c ds (emit_line c s e) hds (emit_line-Goes c s e hs k)
  run_cmds-Goes c (set_flush_mode on ∷ ds) e h k =
      run_cmds-Goes c ds (emit_flush_mode c on e) h
        (if-elim TextGoes (same_csr e.csr (target_state on)) k (emit_line-Goes c _ e tt k))
  run_cmds-Goes c (forget_csr ∷ ds) e h k = run_cmds-Goes c ds (record e { csr = unknown }) h k

  run_case-Goes :
      (s : Site) (o : Option (List Cmd)) (e : EmitState)
      → CmdsGo P o
      → All P (hook_labels (s.config.hooks s.address))
      → TextGoes e
      → TextGoes (run_case s o e).0
  unfolding run_case
  run_case-Goes s none e h k t = t
  run_case-Goes s (some ds) e h k t =
      let after = hook_cmds true (s.config.hooks s.address) in
      run_cmds-Goes s.config (ds ++ after) e
        (subst (All P) (sym (cmd_targets-append ds after)) (
          All-append P (cmd_targets ds) (cmd_targets after) h
            (hook_cmds-Goes true (s.config.hooks s.address) k)))
        t

  pub recompile_insn-Goes :
      (s : Site) (i : Insn) (e : EmitState)
      → All P (branch_targets i.id i)
      → All P (table_labels s.table)
      → All P (hook_labels (s.config.hooks s.address))
      → TextGoes e
      → TextGoes (recompile_insn s i e).0
  unfolding recompile_insn cmd_targets stmt_targets
  recompile_insn-Goes s i e h t k g =
      let before = println (comment 0) ∷ hook_cmds false (s.config.hooks s.address) in
      run_case-Goes s (case_at s i.id i) (run_cmds s.config before e) (case_at-Goes P s i.id i h t)
        k (run_cmds-Goes s.config before e (hook_cmds-Goes false (s.config.hooks s.address) k) g)
