-- ===== src/Emit/Fn/Listed.antt =====
-- What `Recompile` of a function returns.
use xenon_recomp.Emit.Insn.{InstId, unlisted, Insn}
use xenon_recomp.Emit.Config.{SwitchTable, Site}
use xenon_recomp.Emit.Plain.{and_split, and_join}
use xenon_recomp.Emit.Translate.{EmitState, case_at, run_case, recompile_insn}
use xenon_recomp.Emit.Fn.{
  Program, collect_labels, FnState, emit_label, table_before, site_of, emit_insn, fn_step, fn_loop,
  fn_start, FnText, fn_end, fn_count, run_fn, recompile_in, recompile_fn,
}
use xenon_recomp.Function.{Function}
use xenon_recomp.Image.{Section, find_section}
use xenon_recomp.Base.{
  ℕ, zero, suc, ◌+◌, ◌*◌, ◌<◌, ◌≡◌, ◌≢◌, ◌↔◌, ◌⊎◌, refl, ap, ◌∙◌, sym, Bool, true, false, ◌&&◌,
  if_false, List, Option, none, some, arith, inl, inr,
}

-- Whether an instruction is one that the switch lists; one without an opcode is passed over.
unfoldable pub is_listed : InstId → Bool
is_listed (unlisted k) = false
is_listed _ = true

unfoldable pub is_handled : Option Insn → Bool
unfolding is_listed
is_handled none = true
is_handled (some i) = is_listed i.id

and_shift : (a b c : Bool) → (a && (b && c)) ≡ (b && a && c)
and_shift true true c = refl
and_shift true false c = refl
and_shift false true c = refl
and_shift false false c = refl

and_true : (a : Bool) → (a && true) ≡ a
and_true true = refl
and_true false = refl

zero_or_suc : (k : ℕ) → (k ≡ 0) ⊎ ((j : ℕ) × (k ≡ suc j))
zero_or_suc zero = inl refl
zero_or_suc (suc j) = inr (j, refl)

run_case-result :
    (s : Site) (id : InstId) (i : Insn) (e : EmitState)
    → (run_case s (case_at s id i) e).1 ≡ is_listed id
unfolding run_case case_at is_listed
run_case-result s (unlisted k) i e = refl
run_case-result s id i e = refl

emit_insn-result :
    (p : Program) (fn : Function) (a : ℕ) (t : Option SwitchTable) (o : Option Insn) (e : EmitState)
    (all : Bool)
    → FnState.all_recompiled (emit_insn p fn a t o e all) ≡ (is_handled o && all)
unfolding emit_insn recompile_insn is_handled
emit_insn-result p fn a t none e all = refl
emit_insn-result p fn a t (some i) e all =
    ap (λ b. b && all) (run_case-result (site_of p fn a t) i.id i _)

-- Whether all of `n` instructions from an address on are handled.
all_handled : Program → ℕ → ℕ → Bool
all_handled p a zero = true
all_handled p a (suc n) = is_handled (p.disassemble a (p.word a)) && all_handled p (a + 4) n

fn_loop-result :
    (p : Program) (fn : Function) (labels : List ℕ) (a n : ℕ) (s : FnState)
    → FnState.all_recompiled (fn_loop p fn labels a n s) ≡ (all_handled p a n && s.all_recompiled)
unfolding fn_loop fn_step all_handled
fn_loop-result p fn labels a zero s = refl
fn_loop-result p fn labels a (suc n) s =
    fn_loop-result p fn labels (a + 4) n (fn_step p fn labels a s)
    ∙ ap (λ b. all_handled p (a + 4) n && b)
        (emit_insn-result p fn a (table_before p a s.table) (p.disassemble a (p.word a))
          (emit_label p.config labels a s.emit) s.all_recompiled)
    ∙ and_shift (all_handled p (a + 4) n) (is_handled (p.disassemble a (p.word a))) s.all_recompiled

-- The instruction number `k` from an address on.
abbrev pub nth_handled : Program → ℕ → ℕ → Bool
nth_handled p a k = is_handled (p.disassemble (a + k * 4) (p.word (a + k * 4)))

all_handled_iff :
    (p : Program) (a n : ℕ)
    → (all_handled p a n ≡ true) ↔ ((k : ℕ) → k < n → nth_handled p a k ≡ true)
unfolding all_handled
all_handled_iff p a zero = (λ h k l. absurd (omega arith), λ h. refl)
all_handled_iff p a (suc n) =
    let at = λ (t : ℕ). is_handled (p.disassemble t (p.word t)) in
    let rest = all_handled_iff p (a + 4) n in
    (
      λ h k l. elim (zero_or_suc k) [
        | inl z ↦ ap at {y = a} (omega arith) ∙ (and_split (at a) (all_handled p (a + 4) n) h).0
        | inr (j, e) ↦
            ap at {y = a + 4 + j * 4} (omega arith)
            ∙ rest.0 (and_split (at a) (all_handled p (a + 4) n) h).1 j (omega arith)
      ],
      λ h.
          and_join (at a) (all_handled p (a + 4) n) (ap at (omega arith) ∙ h 0 (omega arith))
            (rest.1 (λ k l. ap at {y = a + suc k * 4} (omega arith) ∙ h (suc k) (omega arith))),
    )

-- `Recompile` of a function without vector instructions, for which there are no ids, that has a size
-- and a section, returns true exactly where every word
-- between its start and its end, cut at the section's end, is either no known opcode or an instruction
-- that the switch lists.
pub recompile_fn_iff :
    (p : Program) (fn : Function) (s : Section)
    → fn.size ≢ 0
    → find_section p.sections fn.base ≡ some s
    → ((recompile_fn p fn).1 ≡ true)
      ↔ ((k : ℕ) → k < fn_count fn (fn_end fn s) → nth_handled p fn.base k ≡ true)
unfolding recompile_fn recompile_in run_fn
recompile_fn_iff p fn s nz found =
    let n = fn_count fn (fn_end fn s) in
    let labels = collect_labels p fn.base n in
    let result =
      ap (λ (r : Option FnText × Bool). r.1)
        (if_false (none, true) (recompile_in p fn (find_section p.sections fn.base))
          (ground (arith, nz)))
      ∙ ap (λ o. (recompile_in p fn o).1) found
      ∙ fn_loop-result p fn labels fn.base n fn_start
      ∙ and_true (all_handled p fn.base n) in
    let all = all_handled_iff p fn.base n in (λ h. all.0 (sym result ∙ h), λ h. result ∙ all.1 h)
