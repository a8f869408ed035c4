-- ===== src/Emit/Names.antt =====
-- The names in a piece of text, under a renaming.
use xenon_recomp.Emit.{
  Ref, gpr, fpr, vec, crf, ctr, xer, reserved, temp, v_temp, env, ea, link, msr, fpscr, same_ref,
  Expr, name, field, flag, dec, hex, int, one_f64, zero_f64, long_max, int_max, long_max_f64,
  int_max_f64, rdtsc, from_host, bin, un, cast, pick, load, raw_load, swap_if, Stmt, set, set_flag,
  set_name, or_with, decrement, compare, compare_f64, store, clear_line, when, copy_context,
  restore_context, set_jump, long_jump, store_fpscr, flush_mode, call, call_indirect, return_, trap,
  goto_, open_if, close_if, open_switch, case_label, close_switch, error_at, hook_call, hook_if,
  open_else, comment, location, expr_names, stmt_names, rename_expr, map_names, rename_stmt,
}
use xenon_recomp.Base.{◌≡◌, refl, ap, ==_iff, true, List, [], ◌∷◌, ◌++◌}

map_names-append :
    {N M : Type 0} (f : N → M) (xs ys : List N)
    → map_names f (xs ++ ys) ≡ map_names f xs ++ map_names f ys
unfolding map_names
map_names-append f [] ys = refl
map_names-append f (x ∷ xs) ys = ap (λ t. f x ∷ t) (map_names-append f xs ys)

-- The names of a renamed expression are the renamed names.
expr_names-rename :
    {N M : Type 0} (f : N → M) (e : Expr N)
    → expr_names (rename_expr f e) ≡ map_names f (expr_names e)
unfolding expr_names rename_expr map_names
expr_names-rename f (name n) = refl
expr_names-rename f (field n w) = refl
expr_names-rename f (flag n w) = refl
expr_names-rename f (dec k) = refl
expr_names-rename f (hex k) = refl
expr_names-rename f (int k) = refl
expr_names-rename f one_f64 = refl
expr_names-rename f zero_f64 = refl
expr_names-rename f long_max = refl
expr_names-rename f int_max = refl
expr_names-rename f long_max_f64 = refl
expr_names-rename f int_max_f64 = refl
expr_names-rename f rdtsc = refl
expr_names-rename f from_host = refl
expr_names-rename f (bin op a b) =
    rw
      (
        map_names-append f (expr_names a) (expr_names b),
        expr_names-rename f a,
        expr_names-rename f b,
      )
      refl
expr_names-rename f (un op a) = expr_names-rename f a
expr_names-rename f (cast w a) = expr_names-rename f a
expr_names-rename f (pick c a b) =
    rw
      (
        map_names-append f (expr_names c) (expr_names a ++ expr_names b),
        map_names-append f (expr_names a) (expr_names b),
        expr_names-rename f a,
        expr_names-rename f b,
        expr_names-rename f c,
      )
      refl
expr_names-rename f (load w a) = expr_names-rename f a
expr_names-rename f (raw_load w a) = expr_names-rename f a
expr_names-rename f (swap_if w a b c) =
    rw
      (
        map_names-append f (expr_names a) (expr_names b ++ expr_names c),
        map_names-append f (expr_names b) (expr_names c),
        expr_names-rename f a,
        expr_names-rename f b,
        expr_names-rename f c,
      )
      refl

two_names-rename :
    {N M : Type 0} (f : N → M) (a b : Expr N)
    → expr_names (rename_expr f a) ++ expr_names (rename_expr f b)
      ≡ map_names f (expr_names a ++ expr_names b)
two_names-rename f a b =
    rw
      (
        map_names-append f (expr_names a) (expr_names b),
        expr_names-rename f a,
        expr_names-rename f b,
      )
      refl

pub stmt_names-rename :
    {N M : Type 0} (f : N → M) (s : Stmt N)
    → stmt_names (rename_stmt f s) ≡ map_names f (stmt_names s)
unfolding stmt_names rename_stmt map_names
stmt_names-rename f (set n w a) = ap (λ t. f n ∷ t) (expr_names-rename f a)
stmt_names-rename f (set_flag n w a) = ap (λ t. f n ∷ t) (expr_names-rename f a)
stmt_names-rename f (set_name n a) = ap (λ t. f n ∷ t) (expr_names-rename f a)
stmt_names-rename f (or_with n w a) = ap (λ t. f n ∷ t) (expr_names-rename f a)
stmt_names-rename f (decrement n) = refl
stmt_names-rename f (compare n w a b x) = ap (λ t. f n ∷ f x ∷ t) (two_names-rename f a b)
stmt_names-rename f (compare_f64 n a b) = ap (λ t. f n ∷ t) (two_names-rename f a b)
stmt_names-rename f (store m w a b) = two_names-rename f a b
stmt_names-rename f (clear_line a k) = expr_names-rename f a
stmt_names-rename f (when c s) =
    rw
      (
        map_names-append f (expr_names c) (stmt_names s),
        expr_names-rename f c,
        stmt_names-rename f s,
      )
      refl
stmt_names-rename f (copy_context n) = refl
stmt_names-rename f (restore_context n) = refl
stmt_names-rename f (set_jump n m) = refl
stmt_names-rename f (long_jump n m) = refl
stmt_names-rename f (store_fpscr a) = expr_names-rename f a
stmt_names-rename f (flush_mode on known) = refl
stmt_names-rename f (call k) = refl
stmt_names-rename f (call_indirect n) = refl
stmt_names-rename f return_ = refl
stmt_names-rename f trap = refl
stmt_names-rename f (goto_ a) = refl
stmt_names-rename f (open_if a) = expr_names-rename f a
stmt_names-rename f close_if = refl
stmt_names-rename f (open_switch n) = refl
stmt_names-rename f (case_label k) = refl
stmt_names-rename f close_switch = refl
stmt_names-rename f (error_at a) = refl
stmt_names-rename f (hook_call h ns) = refl
stmt_names-rename f (hook_if h ns) = refl
stmt_names-rename f open_else = refl
stmt_names-rename f (comment k) = refl
stmt_names-rename f (location a) = refl

-- Recording a name keeps those recorded, and a recorded name is recorded.
pub same_ref_refl : (n : Ref) → same_ref n n ≡ true
unfolding same_ref
same_ref_refl (gpr a) = (==_iff a a).1 refl
same_ref_refl (fpr a) = (==_iff a a).1 refl
same_ref_refl (vec a) = (==_iff a a).1 refl
same_ref_refl (crf a) = (==_iff a a).1 refl
same_ref_refl ctr = refl
same_ref_refl xer = refl
same_ref_refl reserved = refl
same_ref_refl temp = refl
same_ref_refl v_temp = refl
same_ref_refl env = refl
same_ref_refl ea = refl
same_ref_refl link = refl
same_ref_refl msr = refl
same_ref_refl fpscr = refl
