-- ===== src/Emit/Fn/Recorded.antt =====
-- Every local name that a function's text uses is recorded.
use xenon_recomp.Emit.{
  Ref, same_ref, Var, Stmt, comment, location, stmt_names, map_names, rename_stmt,
}
use xenon_recomp.Emit.Insn.{Insn}
use xenon_recomp.Emit.Config.{SwitchTable, Config, Site, Cmd, println, set_flush_mode, forget_csr}
use xenon_recomp.Emit.Translate.{
  Locals, EmitState, is_local, var_of, record_local, use_name, use_names, emit_line, target_state,
  same_csr, emit_flush_mode, run_cmd, run_cmds, case_at, hook_cmds, run_case, recompile_insn,
}
use xenon_recomp.Emit.Fn.{
  Program, is_label, FnState, emit_label, site_of, emit_insn, fn_step, fn_loop,
}
use mathlib.Core.List.{append_assoc}
use xenon_recomp.Emit.Names.{stmt_names-rename, same_ref_refl}
use xenon_recomp.Base.{
  ℕ, zero, suc, ◌+◌, ◌≡◌, refl, sym, ap, ◌∙◌, subst, Bool, true, false, ◌||◌, if-elim, if-cases,
  Option, none, some, List, [], ◌∷◌, ◌++◌, All, All-append,
}
use xenon_recomp.Function.{Function}

-- The names in a text.
unfoldable pub text_names : List (Stmt Var) → List Var
text_names [] = []
text_names (s ∷ ss) = stmt_names s ++ text_names ss

-- A local name that the text uses is recorded.
abbrev pub Recorded : Locals → Var → Type 0
Recorded l v = v.local ≡ true → l v.ref ≡ true

abbrev pub Tracked : EmitState → Type 0
Tracked e = All (Recorded e.locals) (text_names e.out)

pub or_right : (a b : Bool) → b ≡ true → (a || b) ≡ true
or_right true b h = refl
or_right false b h = h

pub or_left : (a b : Bool) → a ≡ true → (a || b) ≡ true
or_left true b h = refl
or_left false b h = absurd cc

use_name_keeps : (c : Config) (n m : Ref) (l : Locals) → l m ≡ true → use_name c n l m ≡ true
unfolding use_name record_local
use_name_keeps c n m l h =
    if-elim (λ (t : Locals). t m ≡ true) (is_local c n) (or_right (same_ref n m) (l m) h) h

use_names_keep :
    (c : Config) (ns : List Ref) (m : Ref) (l : Locals) → l m ≡ true → use_names c ns l m ≡ true
unfolding use_names
use_names_keep c [] m l h = h
use_names_keep c (n ∷ ns) m l h = use_names_keep c ns m (use_name c n l) (use_name_keeps c n m l h)

use_name_records :
    (c : Config) (n : Ref) (l : Locals) → is_local c n ≡ true → use_name c n l n ≡ true
unfolding use_name record_local
use_name_records c n l h =
    if-cases (λ (t : Locals). t n ≡ true) (is_local c n)
      (λ e. or_left (same_ref n n) (l n) (same_ref_refl n)) (λ e. absurd cc)

use_names_record :
    (c : Config) (ns : List Ref) (l : Locals)
    → All (Recorded (use_names c ns l)) (map_names (var_of c) ns)
unfolding use_names map_names var_of
use_names_record c [] l = tt
use_names_record c (n ∷ ns) l = (
  λ h. use_names_keep c ns n (use_name c n l) (use_name_records c n l h),
  use_names_record c ns (use_name c n l),
)

All-Recorded :
    (l m : Locals) (vs : List Var)
    → ((n : Ref) → l n ≡ true → m n ≡ true)
    → All (Recorded l) vs
    → All (Recorded m) vs
All-Recorded l m [] keeps h = tt
All-Recorded l m (v ∷ vs) keeps (h, hs) = (λ e. keeps v.ref (h e), All-Recorded l m vs keeps hs)

text_names-append :
    (xs ys : List (Stmt Var)) → text_names (xs ++ ys) ≡ text_names xs ++ text_names ys
unfolding text_names
text_names-append [] ys = refl
text_names-append (x ∷ xs) ys =
    ap (λ t. stmt_names x ++ t) (text_names-append xs ys)
    ∙ sym (append_assoc (stmt_names x) (text_names xs) (text_names ys))

-- A line's names join those of the text.
emit_line-Tracked :
    (c : Config) (s : Stmt Ref) (e : EmitState) → Tracked e → Tracked (emit_line c s e)
unfolding emit_line text_names
emit_line-Tracked c s e h =
    let line = rename_stmt (var_of c) s in
    let used = use_names c (stmt_names s) e.locals in
    subst (All (Recorded used)) (sym (text_names-append e.out (line ∷ []))) (
      All-append (Recorded used) (text_names e.out) (text_names (line ∷ []))
        (All-Recorded e.locals used (text_names e.out)
          (λ n. use_names_keep c (stmt_names s) n e.locals) h)
        (All-append (Recorded used) (stmt_names line) []
          (subst (All (Recorded used)) (sym (stmt_names-rename (var_of c) s))
            (use_names_record c (stmt_names s) e.locals))
          tt))

run_cmd-Tracked : (c : Config) (d : Cmd) (e : EmitState) → Tracked e → Tracked (run_cmd c d e)
unfolding run_cmd emit_flush_mode
run_cmd-Tracked c (println s) e h = emit_line-Tracked c s e h
run_cmd-Tracked c (set_flush_mode on) e h =
    if-elim Tracked (same_csr e.csr (target_state on)) h (emit_line-Tracked c _ e h)
run_cmd-Tracked c forget_csr e h = h

run_cmds-Tracked :
    (c : Config) (ds : List Cmd) (e : EmitState) → Tracked e → Tracked (run_cmds c ds e)
unfolding run_cmds
run_cmds-Tracked c [] e h = h
run_cmds-Tracked c (d ∷ ds) e h = run_cmds-Tracked c ds (run_cmd c d e) (run_cmd-Tracked c d e h)

run_case-Tracked :
    (s : Site) (o : Option (List Cmd)) (e : EmitState) → Tracked e → Tracked (run_case s o e).0
unfolding run_case
run_case-Tracked s none e h = h
run_case-Tracked s (some ds) e h =
    run_cmds-Tracked s.config (ds ++ hook_cmds true (s.config.hooks s.address)) e h

recompile_insn-Tracked :
    (s : Site) (i : Insn) (e : EmitState) → Tracked e → Tracked (recompile_insn s i e).0
unfolding recompile_insn
recompile_insn-Tracked s i e h =
    let before = println (comment 0) ∷ hook_cmds false (s.config.hooks s.address) in
    run_case-Tracked s (case_at s i.id i) (run_cmds s.config before e)
      (run_cmds-Tracked s.config before e h)

emit_insn-Tracked :
    (p : Program) (fn : Function) (a : ℕ) (t : Option SwitchTable) (o : Option Insn) (e : EmitState)
    (all : Bool)
    → Tracked e
    → Tracked (FnState.emit (emit_insn p fn a t o e all))
unfolding emit_insn
emit_insn-Tracked p fn a t none e all h = emit_line-Tracked p.config (comment (p.word a)) e h
emit_insn-Tracked p fn a t (some i) e all h = recompile_insn-Tracked (site_of p fn a t) i e h

emit_label-Tracked :
    (c : Config) (labels : List ℕ) (a : ℕ) (e : EmitState)
    → Tracked e
    → Tracked (emit_label c labels a e)
unfolding emit_label
emit_label-Tracked c labels a e h =
    if-elim Tracked (is_label labels a) (emit_line-Tracked c (location a) e h) h

pub fn_loop-Tracked :
    (p : Program) (fn : Function) (labels : List ℕ) (a n : ℕ) (s : FnState)
    → Tracked s.emit
    → Tracked (FnState.emit (fn_loop p fn labels a n s))
unfolding fn_loop fn_step
fn_loop-Tracked p fn labels a zero s h = h
fn_loop-Tracked p fn labels a (suc n) s h =
    fn_loop-Tracked p fn labels (a + 4) n (fn_step p fn labels a s) (
      emit_insn-Tracked p fn a _ (p.disassemble a (p.word a)) _ _
        (emit_label-Tracked p.config labels a s.emit h))
