-- ===== src/Emit/Fn/Declared.antt =====
-- Every local variable that a function's text names is declared in front of it.
use xenon_recomp.Function.{Function}
use xenon_recomp.Image.{Section, find_section}
use xenon_recomp.Emit.{
  Ref, gpr, fpr, vec, crf, ctr, xer, reserved, temp, v_temp, env, ea, link, msr, fpscr, Var,
}
use xenon_recomp.Emit.Translate.{Locals}
use xenon_recomp.Emit.Fn.{
  Program, collect_labels, FnState, declare_range, declare, append_all, declared_groups,
  declarations, fn_start, FnText, fn_end, fn_count, run_fn, fn_text, recompile_in, recompile_fn,
}
use xenon_recomp.Emit.Fn.Recorded.{text_names, Recorded, Tracked, fn_loop-Tracked}
use mathlib.Core.List.{Memᴰ}
use mathlib.Core.Option.{none-ne-some}
use mathlib.Core.List.Memᴰ
use xenon_recomp.Base.{
  ℕ, zero, suc, ◌+◌, ◌<◌, ◌≤◌, ◌≡◌, refl, sym, ap, subst, Bool, true, ◌==◌, if-cases, Option, none,
  some, List, [], ◌∷◌, All-Mem, arith, get_elem?, some-injective, ℕ_discrete,
}

-- The names that `RecompilerLocalVariables` has a flag for.
unfoldable pub InRange : Ref → Type 0
InRange (gpr k) = k < 32
InRange (fpr k) = k < 32
InRange (vec k) = k < 128
InRange (crf k) = k < 8
InRange link = ⊥
InRange msr = ⊥
InRange fpscr = ⊥
InRange _ = Unit

-- A recorded name in range is declared.
declare_range-Mem :
    (f : ℕ → Ref) (l : Locals) (k n j : ℕ)
    → k ≤ j
    → j < k + n
    → l (f j) ≡ true
    → Memᴰ (f j) (declare_range f l k n)
unfolding declare_range
declare_range-Mem f l k zero j lo hi h = absurd (omega arith)
declare_range-Mem f l k (suc n) j lo hi h =
    if-cases (Memᴰ (f j)) (l (f k))
      (λ e. elim (ℕ_discrete j k) [
        | yes q ↦ Memᴰ.head (ap f q)
        | no q ↦ Memᴰ.tail (declare_range-Mem f l (suc k) n j (omega arith) (omega arith) h)
      ])
      (λ e. elim (ℕ_discrete j k) [
        | yes q ↦ absurd cc
        | no q ↦ declare_range-Mem f l (suc k) n j (omega arith) (omega arith) h
      ])

declare-Mem : (l : Locals) (n : Ref) → l n ≡ true → Memᴰ n (declare l n)
unfolding declare
declare-Mem l n h = if-cases (Memᴰ n) (l n) (λ e. Memᴰ.head refl) (λ e. absurd cc)

append_all-Mem :
    (nss : List (List Ref)) (k : ℕ) (ns : List Ref) (n : Ref)
    → get_elem? nss k ≡ some ns
    → Memᴰ n ns
    → Memᴰ n (append_all nss)
unfolding append_all
append_all-Mem [] k ns n e h = absurd cc
append_all-Mem (ms ∷ nss) zero ns n e h =
    Memᴰ.append_left (append_all nss) (subst (Memᴰ n) (sym (some-injective _ _ e)) h)
append_all-Mem (ms ∷ nss) (suc k) ns n e h = Memᴰ.append_right ms (append_all-Mem nss k ns n e h)

declarations-Mem : (l : Locals) (n : Ref) → InRange n → l n ≡ true → Memᴰ n (declarations l)
unfolding declarations declared_groups InRange
declarations-Mem l (gpr k) r h =
    append_all-Mem (declared_groups l) 4 _ (gpr k) refl
      (declare_range-Mem gpr l 0 32 k (omega arith) (omega arith) h)
declarations-Mem l (fpr k) r h =
    append_all-Mem (declared_groups l) 5 _ (fpr k) refl
      (declare_range-Mem fpr l 0 32 k (omega arith) (omega arith) h)
declarations-Mem l (vec k) r h =
    append_all-Mem (declared_groups l) 6 _ (vec k) refl
      (declare_range-Mem vec l 0 128 k (omega arith) (omega arith) h)
declarations-Mem l (crf k) r h =
    append_all-Mem (declared_groups l) 3 _ (crf k) refl
      (declare_range-Mem crf l 0 8 k (omega arith) (omega arith) h)
declarations-Mem l ctr r h = append_all-Mem (declared_groups l) 0 _ ctr refl (declare-Mem l ctr h)
declarations-Mem l xer r h = append_all-Mem (declared_groups l) 1 _ xer refl (declare-Mem l xer h)
declarations-Mem l reserved r h =
    append_all-Mem (declared_groups l) 2 _ reserved refl (declare-Mem l reserved h)
declarations-Mem l env r h = append_all-Mem (declared_groups l) 7 _ env refl (declare-Mem l env h)
declarations-Mem l temp r h =
    append_all-Mem (declared_groups l) 8 _ temp refl (declare-Mem l temp h)
declarations-Mem l v_temp r h =
    append_all-Mem (declared_groups l) 9 _ v_temp refl (declare-Mem l v_temp h)
declarations-Mem l ea r h = append_all-Mem (declared_groups l) 10 _ ea refl (declare-Mem l ea h)
declarations-Mem l link r h = absurd r
declarations-Mem l msr r h = absurd r
declarations-Mem l fpscr r h = absurd r

-- A text in which every local name of the struct is declared.
unfoldable pub IsScoped : FnText → Type 0
IsScoped t =
    (v : Var) → Memᴰ v (text_names t.body) → v.local ≡ true → InRange v.ref → Memᴰ v.ref t.declared

fn_text-IsScoped : (s : FnState) → Tracked s.emit → IsScoped (fn_text s)
unfolding fn_text IsScoped
fn_text-IsScoped s h v m local range =
    declarations-Mem s.emit.locals v.ref range
      (All-Mem (Recorded s.emit.locals) v (text_names s.emit.out) h m local)

no_text : (t : FnText) (all : Bool) → ◌≡◌ {A = Option FnText × Bool} (none, true) (some t, all) → ⊥
no_text t all e = none-ne-some t (ap (λ (o : Option FnText × Bool). o.0) e)

recompile_in-IsScoped :
    (p : Program) (fn : Function) (t : FnText) (all : Bool) (o : Option Section)
    → recompile_in p fn o ≡ (some t, all)
    → IsScoped t
unfolding recompile_in run_fn text_names fn_text
recompile_in-IsScoped p fn t all none e = absurd (no_text t all e)
recompile_in-IsScoped p fn t all (some s) e =
    subst IsScoped (some-injective _ _ (ap (λ o. o.0) e)) (
      fn_text-IsScoped (run_fn p fn s) (
        fn_loop-Tracked p fn (collect_labels p fn.base (fn_count fn (fn_end fn s))) fn.base
          (fn_count fn (fn_end fn s)) fn_start tt))

-- Every local variable that the text of a function names, and that has a flag in
-- `RecompilerLocalVariables`, is declared in front of the text, whatever the instructions, hooks
-- and labels are.
pub recompile_fn-IsScoped :
    (p : Program) (fn : Function) (t : FnText) (all : Bool)
    → recompile_fn p fn ≡ (some t, all)
    → IsScoped t
unfolding recompile_fn
recompile_fn-IsScoped p fn t all =
    if-cases (λ (o : Option FnText × Bool). o ≡ (some t, all) → IsScoped t) (fn.size == 0)
      (λ z e. absurd (no_text t all e))
      (λ z. recompile_in-IsScoped p fn t all (find_section p.sections fn.base))
