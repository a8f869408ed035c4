-- ===== src/Emit/Fn/Closed.antt =====
-- Every `goto` into the range that a function is printed for has its label there.
use xenon_recomp.Emit.{Ref, Var, Stmt, comment, location, rename_stmt}
use xenon_recomp.Emit.Insn.{InstId, jump_group, Insn}
use xenon_recomp.Emit.Config.{SwitchTable, Config, Site, Cmd, println, set_flush_mode, forget_csr}
use xenon_recomp.Emit.Targets.{stmt_targets, targets, branch_targets}
use xenon_recomp.Emit.Translate.{
  EmitState, var_of, emit_line, target_state, same_csr, emit_flush_mode, run_cmd, run_cmds, case_at,
  hook_cmds, run_case, recompile_insn,
}
use xenon_recomp.Emit.Fn.{
  Program, branch_labels, table_labels, hook_labels, labels_at, collect_labels, is_label, FnState,
  emit_label, table_before, ends_table, table_after, site_of, emit_insn, fn_step, fn_loop, fn_start,
  fn_end, fn_count, run_fn,
}
use xenon_recomp.Emit.Fn.Encoding.{Decodes, Encodes-labels}
use xenon_recomp.Emit.Fn.Recorded.{or_right, or_left}
use mathlib.Core.List.{Memᴰ}
use mathlib.Core.List.Memᴰ
use xenon_recomp.Function.{Function}
use xenon_recomp.Image.{Section}
use xenon_recomp.Ppc.{byte_swap32}
use xenon_recomp.Emit.Fn.Labels.{TextGoes, recompile_insn-Goes, emit_line-Goes, All-split}
use xenon_recomp.Base.{
  ℕ, zero, suc, ◌+◌, ◌-◌, ◌*◌, ◌/◌, ◌%◌, ◌<◌, ◌≤◌, ◌≡◌, refl, sym, subst, Bool, true, false, ◌==◌,
  ==_iff, if-elim, if-cases, List, [], ◌∷◌, ◌++◌, All, All-Mem, Option, none, some, arith, inl, inr,
}

All-in : (P : ℕ → Type 0) (xs ys : List ℕ) → All (λ t. Memᴰ t xs) ys → All P xs → All P ys
All-in P xs [] h k = tt
All-in P xs (y ∷ ys) (h, hs) k = (All-Mem P y xs k h, All-in P xs ys hs k)

All-self : (xs ys : List ℕ) → ((t : ℕ) → Memᴰ t xs → Memᴰ t ys) → All (λ t. Memᴰ t ys) xs
All-self [] ys h = tt
All-self (x ∷ xs) ys h = (h x (Memᴰ.head refl), All-self xs ys (λ t m. h t (Memᴰ.tail m)))

module _ (P : ℕ → Type 0) (p : Program) (fn : Function) (decodes : Decodes p) where
  before-Goes :
      (a : ℕ) (t : Option SwitchTable)
      → All P (table_labels (p.config.switch_tables a))
      → All P (table_labels t)
      → All P (table_labels (table_before p a t))
  unfolding table_before
  before-Goes a none h k = h
  before-Goes a (some t) h k = k

  after-Goes :
      (id : InstId) (t : Option SwitchTable)
      → All P (table_labels t)
      → All P (table_labels (table_after id t))
  unfolding table_after table_labels
  after-Goes (jump_group x) t h = if-elim (λ o. All P (table_labels o)) (ends_table x) tt h
  after-Goes id t h = h

  emit_insn-Goes :
      (a : ℕ) (t : Option SwitchTable) (o : Option Insn) (e : EmitState) (all : Bool)
      → p.disassemble a (p.word a) ≡ o
      → All P (branch_labels a (byte_swap32 (p.word a)))
      → All P (table_labels t)
      → All P (hook_labels (p.config.hooks a))
      → TextGoes P e
      → TextGoes P (FnState.emit (emit_insn p fn a t o e all))
        × All P (table_labels (FnState.table (emit_insn p fn a t o e all)))
  unfolding emit_insn site_of stmt_targets Decodes
  emit_insn-Goes a t none e all d h k hook g =
      (emit_line-Goes P p.config (comment (p.word a)) e tt g, k)
  emit_insn-Goes a t (some i) e all d h k hook g =
      let goes =
        All-in P (branch_labels a (byte_swap32 (p.word a))) (branch_targets i.id i)
          (Encodes-labels a (byte_swap32 (p.word a)) i.id i (decodes a i d)) h in
      (recompile_insn-Goes P (site_of p fn a t) i e goes k hook g, after-Goes i.id t k)

  fn_loop-Goes :
      (labels : List ℕ) (a n : ℕ) (s : FnState)
      → All P (collect_labels p a n)
      → All P (table_labels s.table)
      → TextGoes P s.emit
      → TextGoes P (FnState.emit (fn_loop p fn labels a n s))
  unfolding fn_loop fn_step collect_labels labels_at emit_label stmt_targets
  fn_loop-Goes labels a zero s h k g = g
  fn_loop-Goes labels a (suc n) s h k g =
      let (here, later) = All-split P (labels_at p a) (collect_labels p (a + 4) n) h in
      let b = branch_labels a (byte_swap32 (p.word a)) in
      let t = table_labels (p.config.switch_tables a) in
      let (bt, hook) = All-split P (b ++ t) (hook_labels (p.config.hooks a)) here in
      let (branch, table) = All-split P b t bt in
      let e = emit_label p.config labels a s.emit in
      let labelled =
        if-elim (TextGoes P) (is_label labels a)
          (emit_line-Goes P p.config (location a) s.emit tt g) g in
      let (text, next) =
        emit_insn-Goes a (table_before p a s.table) (p.disassemble a (p.word a)) e s.all_recompiled
          refl branch (before-Goes a s.table table k) hook labelled in
      fn_loop-Goes labels (a + 4) n (fn_step p fn labels a s) later next text

-- A text grows only.
abbrev Kept : EmitState → EmitState → Type 0
Kept e e' = (x : Stmt Var) → Memᴰ x e.out → Memᴰ x e'.out

emit_line-Kept : (c : Config) (s : Stmt Ref) (e : EmitState) → Kept e (emit_line c s e)
unfolding emit_line
emit_line-Kept c s e x m = Memᴰ.append_left (rename_stmt (var_of c) s ∷ []) m

run_cmd-Kept : (c : Config) (d : Cmd) (e : EmitState) → Kept e (run_cmd c d e)
unfolding run_cmd emit_flush_mode
run_cmd-Kept c (println s) e = emit_line-Kept c s e
run_cmd-Kept c (set_flush_mode on) e =
    if-elim (Kept e) (same_csr e.csr (target_state on)) (λ x m. m) (emit_line-Kept c _ e)
run_cmd-Kept c forget_csr e = λ x m. m

run_cmds-Kept : (c : Config) (ds : List Cmd) (e : EmitState) → Kept e (run_cmds c ds e)
unfolding run_cmds
run_cmds-Kept c [] e x m = m
run_cmds-Kept c (d ∷ ds) e x m = run_cmds-Kept c ds (run_cmd c d e) x (run_cmd-Kept c d e x m)

run_case-Kept : (s : Site) (o : Option (List Cmd)) (e : EmitState) → Kept e (run_case s o e).0
unfolding run_case
run_case-Kept s none e x m = m
run_case-Kept s (some ds) e x m =
    run_cmds-Kept s.config (ds ++ hook_cmds true (s.config.hooks s.address)) e x m

emit_insn-Kept :
    (p : Program) (fn : Function) (a : ℕ) (t : Option SwitchTable) (o : Option Insn) (e : EmitState)
    (all : Bool)
    → Kept e (FnState.emit (emit_insn p fn a t o e all))
unfolding emit_insn recompile_insn
emit_insn-Kept p fn a t none e all x m = emit_line-Kept p.config (comment (p.word a)) e x m
emit_insn-Kept p fn a t (some i) e all x m =
    let s = site_of p fn a t in
    let before = println (comment 0) ∷ hook_cmds false (s.config.hooks s.address) in
    run_case-Kept s (case_at s i.id i) (run_cmds s.config before e) x
      (run_cmds-Kept s.config before e x m)

fn_step-Kept :
    (p : Program) (fn : Function) (labels : List ℕ) (a : ℕ) (s : FnState)
    → Kept s.emit (FnState.emit (fn_step p fn labels a s))
unfolding fn_step emit_label
fn_step-Kept p fn labels a s x m =
    emit_insn-Kept p fn a (table_before p a s.table) (p.disassemble a (p.word a))
      (emit_label p.config labels a s.emit) s.all_recompiled x
      (if-elim (λ (e : EmitState). Memᴰ x e.out) (is_label labels a)
        (emit_line-Kept p.config (location a) s.emit x m) m)

fn_loop-Kept :
    (p : Program) (fn : Function) (labels : List ℕ) (a n : ℕ) (s : FnState)
    → Kept s.emit (FnState.emit (fn_loop p fn labels a n s))
unfolding fn_loop
fn_loop-Kept p fn labels a zero s x m = m
fn_loop-Kept p fn labels a (suc n) s x m =
    fn_loop-Kept p fn labels (a + 4) n (fn_step p fn labels a s) x
      (fn_step-Kept p fn labels a s x m)

-- A labelled address that the loop visits has its line.
fn_step-location :
    (p : Program) (fn : Function) (labels : List ℕ) (a : ℕ) (s : FnState)
    → is_label labels a ≡ true
    → Memᴰ (location a) (EmitState.out (FnState.emit (fn_step p fn labels a s)))
unfolding fn_step emit_label emit_line rename_stmt
fn_step-location p fn labels a s h =
    emit_insn-Kept p fn a (table_before p a s.table) (p.disassemble a (p.word a))
      (emit_label p.config labels a s.emit) s.all_recompiled (location a)
      (if-cases (λ (e : EmitState). Memᴰ (location a) e.out) (is_label labels a)
        (λ e. Memᴰ.append_right (EmitState.out s.emit) (Memᴰ.head refl)) (λ e. absurd cc))

fn_loop-location :
    (p : Program) (fn : Function) (labels : List ℕ) (a n k : ℕ) (s : FnState)
    → k < n
    → is_label labels (a + k * 4) ≡ true
    → Memᴰ (location (a + k * 4)) (EmitState.out (FnState.emit (fn_loop p fn labels a n s)))
unfolding fn_loop
fn_loop-location p fn labels a zero k s l h = absurd (omega arith)
fn_loop-location p fn labels a (suc n) zero s l h =
    subst
      (λ (t : ℕ).
        Memᴰ (location t) (EmitState.out (FnState.emit (fn_loop p fn labels a (suc n) s))))
      {x = a} (omega arith)
      (fn_loop-Kept p fn labels (a + 4) n (fn_step p fn labels a s) (location a) (
        fn_step-location p fn labels a s
          (subst (λ (t : ℕ). is_label labels t ≡ true) {y = a} (omega arith) h)))
fn_loop-location p fn labels a (suc n) (suc k) s l h =
    subst
      (λ (t : ℕ).
        Memᴰ (location t)
          (EmitState.out (FnState.emit (fn_loop p fn labels (a + 4) n (fn_step p fn labels a s)))))
      {x = a + 4 + k * 4} (omega arith)
      (fn_loop-location p fn labels (a + 4) n k (fn_step p fn labels a s) (omega arith)
        (subst (λ (t : ℕ). is_label labels t ≡ true) {y = a + 4 + k * 4} (omega arith) h))

Mem-is_label : (ls : List ℕ) (a : ℕ) → Memᴰ a ls → is_label ls a ≡ true
unfolding is_label
Mem-is_label [] a m = absurd (Memᴰ.not-nil m)
Mem-is_label (l ∷ ls) a m = elim (Memᴰ.cases_cons m) [
  | inl e ↦ or_left (l == a) (is_label ls a) ((==_iff l a).1 (sym e))
  | inr r ↦ or_right (l == a) (is_label ls a) (Mem-is_label ls a r)
]

-- In the printed text of a function in its section, every `goto` to an instruction's address between
-- the function's start and its end, cut at the end of the section, has a label, if the target
-- operands of branches are what the instruction words encode: the address plus the signed displacement
-- of opcode 18 or 16.
pub run_fn-IsClosed :
    (p : Program) (fn : Function) (s : Section) (a : ℕ)
    → Decodes p
    → Memᴰ a (targets (EmitState.out (FnState.emit (run_fn p fn s))))
    → fn.base ≤ a
    → a < fn_end fn s
    → (a - fn.base) % 4 ≡ 0
    → Memᴰ (location a) (EmitState.out (FnState.emit (run_fn p fn s)))
unfolding run_fn fn_count targets table_labels
run_fn-IsClosed p fn s a d m lo hi aligned =
    let n = fn_count fn (fn_end fn s) in
    let labels = collect_labels p fn.base n in
    let goes =
      fn_loop-Goes (λ t. Memᴰ t labels) p fn d labels fn.base n fn_start
        (All-self labels labels (λ t h. h)) tt tt in
    let k = (a - fn.base) / 4 in
    subst
      (λ (t : ℕ).
        Memᴰ (location t) (EmitState.out (FnState.emit (fn_loop p fn labels fn.base n fn_start))))
      {x = fn.base + k * 4} (omega arith)
      (fn_loop-location p fn labels fn.base n k fn_start (omega arith) (
        subst (λ (t : ℕ). is_label labels t ≡ true) {y = fn.base + k * 4} (omega arith)
          (Mem-is_label labels a (All-Mem (λ t. Memᴰ t labels) a _ goes m))))
