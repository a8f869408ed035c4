-- ===== src/Recompiler/Helpers/Exact.antt =====
-- `Analyse` makes a function for each part of a register helper.
use Prim.Native.String.{String}
use mathlib.Core.List.{Memᴰ}
use mathlib.Core.List.Memᴰ
use xenon_recomp.Base.{
  ℕ, zero, suc, ◌+◌, ◌-◌, ◌*◌, ◌≤◌, ◌<◌, ◌≡◌, ◌≢◌, ◌↔◌, refl, sym, subst, ap, ◌∙◌, ltb, leb, ◌==◌,
  if◌then◌else◌, if-elim, if-cases, List, [], ◌∷◌, All-Mem, arith,
}
use xenon_recomp.Function.{Function}
use xenon_recomp.Symbols.{Symbol}
use xenon_recomp.Crt.Scan.{CrtHelperAddresses}
use xenon_recomp.Recompiler.Sections.{Found}
use xenon_recomp.Recompiler.Helpers.{
  entry, helper_entry, add_helper, add_low_helpers, add_helpers_at, add_helpers,
}
use xenon_recomp.Recompiler.Helpers.Parts.{
  Helper, rest_gpr, save_gpr, rest_fpr, save_fpr, rest_vmx, save_vmx, rest_vmx_high, save_vmx_high,
  address_of, first_of, last_of, stride_of, length_of, tail_of, IsPart, IsEntry, part,
  add_helpers-All,
}

add_helper-old :
    (name : String) (fns : List Function) (f : Found) {x : Function}
    → Memᴰ x f.functions
    → Memᴰ x (add_helper name fns f).functions
unfolding add_helper
add_helper-old name [] f m = m
add_helper-old name (fn ∷ fns) f m = add_helper-old name fns _ (Memᴰ.append_left (fn ∷ []) m)

add_helper-new :
    (name : String) (f : Found) (address first last stride tail i : ℕ)
    → address ≢ 0
    → Memᴰ
        (entry (address + (i - first) * stride) ((last - i) * stride + tail))
        (add_helper name (helper_entry address first last stride tail i) f).functions
unfolding add_helper helper_entry
add_helper-new name f address first last stride tail i there =
    if-cases
      (λ fns.
        Memᴰ (entry (address + (i - first) * stride) ((last - i) * stride + tail))
          (add_helper name fns f).functions)
      (address == 0) (λ none_there. absurd (ground (arith, none_there)))
      (λ at. Memᴰ.append_right f.functions (Memᴰ.head refl))

module _ (names : ℕ → ℕ → String) (c : CrtHelperAddresses) where
  add_low_helpers-new :
      (h : Helper) (i : ℕ) (f : Found)
      → last_of h ≡ 32
      → address_of c h ≢ 0
      → Memᴰ (part c h i) (add_low_helpers names c i f).functions
  unfolding add_low_helpers
  add_low_helpers-new rest_gpr i f e there = add_helper-old _ _ _ (
      add_helper-old _ _ _ (
        add_helper-old _ _ _ (
          add_helper-old _ _ _
            (add_helper-old _ _ _ (add_helper-new (names 0 i) f c.rest_gpr14 14 32 4 12 i there)))))
  add_low_helpers-new save_gpr i f e there = add_helper-old _ _ _ (
      add_helper-old _ _ _ (
        add_helper-old _ _ _
          (add_helper-old _ _ _ (add_helper-new (names 1 i) _ c.save_gpr14 14 32 4 8 i there))))
  add_low_helpers-new rest_fpr i f e there = add_helper-old _ _ _ (
      add_helper-old _ _ _
        (add_helper-old _ _ _ (add_helper-new (names 2 i) _ c.rest_fpr14 14 32 4 4 i there)))
  add_low_helpers-new save_fpr i f e there =
      add_helper-old _ _ _
        (add_helper-old _ _ _ (add_helper-new (names 3 i) _ c.save_fpr14 14 32 4 4 i there))
  add_low_helpers-new rest_vmx i f e there =
      add_helper-old _ _ _ (add_helper-new (names 4 i) _ c.rest_vmx14 14 32 8 4 i there)
  add_low_helpers-new save_vmx i f e there =
      add_helper-new (names 5 i) _ c.save_vmx14 14 32 8 4 i there
  add_low_helpers-new rest_vmx_high i f e there = absurd (omega (arith, e))
  add_low_helpers-new save_vmx_high i f e there = absurd (omega (arith, e))

  add_low_helpers-old :
      (i : ℕ) (f : Found) {x : Function}
      → Memᴰ x f.functions
      → Memᴰ x (add_low_helpers names c i f).functions
  unfolding add_low_helpers
  add_low_helpers-old i f m = add_helper-old _ _ _ (
      add_helper-old _ _ _ (
        add_helper-old _ _ _
          (add_helper-old _ _ _ (add_helper-old _ _ _ (add_helper-old _ _ _ m)))))

  -- What is there below register 64 stays there.
  add_helpers_at-low :
      (i : ℕ) (f : Found) {x : Function}
      → Memᴰ x (if ltb i 32 then add_low_helpers names c i f else f).functions
      → Memᴰ x (add_helpers_at names c i f).functions
  unfolding add_helpers_at
  add_helpers_at-low i f {x} m =
      if-elim (λ (g : Found). Memᴰ x g.functions) (leb 64 i)
        (add_helper-old _ _ _ (add_helper-old _ _ _ m)) m

  add_helpers_at-old :
      (i : ℕ) (f : Found) {x : Function}
      → Memᴰ x f.functions
      → Memᴰ x (add_helpers_at names c i f).functions
  add_helpers_at-old i f {x} m =
      add_helpers_at-low i f
        (if-elim (λ (g : Found). Memᴰ x g.functions) (ltb i 32) (add_low_helpers-old i f m) m)

  low_new :
      (h : Helper) (i : ℕ) (f : Found)
      → i < last_of h
      → last_of h ≡ 32
      → address_of c h ≢ 0
      → Memᴰ (part c h i) (add_helpers_at names c i f).functions
  low_new h i f hi e there = add_helpers_at-low i f (
      if-cases (λ (g : Found). Memᴰ (part c h i) g.functions) (ltb i 32)
        (λ lt. add_low_helpers-new h i f e there) (λ ge. absurd (ground (arith, ge, hi, e))))

  add_helpers_at-new :
      (h : Helper) (i : ℕ) (f : Found)
      → first_of h ≤ i
      → i < last_of h
      → address_of c h ≢ 0
      → Memᴰ (part c h i) (add_helpers_at names c i f).functions
  unfolding add_helpers_at
  add_helpers_at-new rest_vmx_high i f lo hi there =
      if-cases (λ (g : Found). Memᴰ (part c rest_vmx_high i) g.functions) (leb 64 i)
        (λ e. add_helper-old _ _ _ (add_helper-new (names 6 i) _ c.rest_vmx64 64 128 8 4 i there))
        (λ e. absurd (ground (arith, e, lo)))
  add_helpers_at-new save_vmx_high i f lo hi there =
      if-cases (λ (g : Found). Memᴰ (part c save_vmx_high i) g.functions) (leb 64 i)
        (λ e. add_helper-new (names 7 i) _ c.save_vmx64 64 128 8 4 i there)
        (λ e. absurd (ground (arith, e, lo)))
  add_helpers_at-new rest_gpr i f lo hi there = low_new rest_gpr i f hi refl there
  add_helpers_at-new save_gpr i f lo hi there = low_new save_gpr i f hi refl there
  add_helpers_at-new rest_fpr i f lo hi there = low_new rest_fpr i f hi refl there
  add_helpers_at-new save_fpr i f lo hi there = low_new save_fpr i f hi refl there
  add_helpers_at-new rest_vmx i f lo hi there = low_new rest_vmx i f hi refl there
  add_helpers_at-new save_vmx i f lo hi there = low_new save_vmx i f hi refl there

  add_helpers-old :
      (left i : ℕ) (f : Found) {x : Function}
      → Memᴰ x f.functions
      → Memᴰ x (add_helpers names c left i f).functions
  unfolding add_helpers
  add_helpers-old zero i f m = m
  add_helpers-old (suc left) i f m = add_helpers-old left (i + 1) _ (add_helpers_at-old i f m)

  add_helpers-new :
      (h : Helper) (left i k : ℕ) (f : Found)
      → first_of h ≤ i + k
      → i + k < last_of h
      → k < left
      → address_of c h ≢ 0
      → Memᴰ (part c h (i + k)) (add_helpers names c left i f).functions
  unfolding add_helpers
  add_helpers-new h zero i k f lo hi in_loop there = absurd (omega arith)
  add_helpers-new h (suc left) i zero f lo hi in_loop there =
      let same : i ≡ i + 0 = omega arith in
      subst (λ n. Memᴰ (part c h n) (add_helpers names c (suc left) i f).functions) same
        (add_helpers-old left (i + 1) _
          (add_helpers_at-new h i f (omega (arith, lo)) (omega (arith, hi)) there))
  add_helpers-new h (suc left) i (suc k) f lo hi in_loop there =
      let same : i + 1 + k ≡ i + suc k = omega arith in
      subst (λ n. Memᴰ (part c h n) (add_helpers names c (suc left) i f).functions) same
        (add_helpers-new h left (i + 1) k _ (omega (arith, lo)) (omega (arith, hi)) (omega arith)
          there)

  same_function : (h : Helper) (i : ℕ) (fn : Function) → IsPart c h i fn → part c h i ≡ fn
  same_function h i fn (there, lo, hi, base, end, blocks) = λ k. record {
    base = sym base k;
    size = sym (sizes h lo hi base end) k;
    blocks = sym blocks k;
  }
    where
      sizes :
          (h : Helper)
          → first_of h ≤ i
          → i < last_of h
          → fn.base ≡ address_of c h + (i - first_of h) * stride_of h
          → fn.base + fn.size ≡ address_of c h + length_of h
          → fn.size ≡ (last_of h - i) * stride_of h + tail_of h
      sizes rest_gpr lo hi base end = omega arith
      sizes save_gpr lo hi base end = omega arith
      sizes rest_fpr lo hi base end = omega arith
      sizes save_fpr lo hi base end = omega arith
      sizes rest_vmx lo hi base end = omega arith
      sizes save_vmx lo hi base end = omega arith
      sizes rest_vmx_high lo hi base end = omega arith
      sizes save_vmx_high lo hi base end = omega arith

  in_loop : (h : Helper) (i : ℕ) → first_of h ≤ i → i < last_of h → (14 ≤ i) × (i < 128)
  in_loop rest_gpr i lo hi = (omega arith, omega arith)
  in_loop save_gpr i lo hi = (omega arith, omega arith)
  in_loop rest_fpr i lo hi = (omega arith, omega arith)
  in_loop save_fpr i lo hi = (omega arith, omega arith)
  in_loop rest_vmx i lo hi = (omega arith, omega arith)
  in_loop save_vmx i lo hi = (omega arith, omega arith)
  in_loop rest_vmx_high i lo hi = (omega arith, omega arith)
  in_loop save_vmx_high i lo hi = (omega arith, omega arith)

  -- The functions that `Analyse` starts with are exactly the parts of the register helpers that are
  -- there: one for each helper and each of its registers, which starts at the code of the register and
  -- reaches to the end of that helper.
  pub add_helpers-IsEntry :
      (symbols : List Symbol) (fn : Function)
      → Memᴰ fn
          (add_helpers names c
            (128 - 14)
            14
            (record { functions = []; symbols = symbols })).functions
        ↔ IsEntry c fn
  add_helpers-IsEntry symbols fn =
      let none_yet : Found = record { functions = []; symbols = symbols } in
      (
        λ m.
            All-Mem (IsEntry c) fn _
              (add_helpers-All names c (128 - 14) 14 none_yet (omega arith) (omega arith) tt) m,
        λ (h, i, p).
            let (lo, hi) = in_loop h i p.1 p.2 in
            let e : 14 + (i - 14) ≡ i = omega (arith, lo) in
            subst (λ x. Memᴰ x (add_helpers names c (128 - 14) 14 none_yet).functions)
              (ap (part c h) e ∙ same_function h i fn p)
              (add_helpers-new h (128 - 14) 14 (i - 14) none_yet (rw e p.1) (rw e p.2)
                (omega (arith, hi)) p.0),
      )
