-- ===== src/Recompiler/Helpers/Parts.antt =====
-- The parts of the register helpers, and that `Analyse` makes no other functions for them.
use Prim.Native.String.{String}
use xenon_recomp.Base.{
  ℕ, zero, suc, ◌+◌, ◌-◌, ◌*◌, ◌≤◌, ◌<◌, ◌≡◌, ◌≢◌, refl, ltb, leb, ◌==◌, if-cases, List, [], ◌∷◌,
  All, All-append, arith, ltb→lt, leb→le,
}
use xenon_recomp.Function.{Function}
use xenon_recomp.Crt.Scan.{CrtHelperAddresses}
use xenon_recomp.Recompiler.Sections.{Found}
use xenon_recomp.Recompiler.Helpers.{
  entry, helper_entry, add_helper, add_low_helpers, add_helpers_at, add_helpers,
}

-- The helpers: where they start, which registers they have, how many bytes of code each register has
-- and how many there are in all.
pub data Helper : Type 0 where
  rest_gpr save_gpr rest_fpr save_fpr rest_vmx save_vmx rest_vmx_high save_vmx_high : Helper

abbrev pub address_of : CrtHelperAddresses → Helper → ℕ
address_of c rest_gpr = c.rest_gpr14
address_of c save_gpr = c.save_gpr14
address_of c rest_fpr = c.rest_fpr14
address_of c save_fpr = c.save_fpr14
address_of c rest_vmx = c.rest_vmx14
address_of c save_vmx = c.save_vmx14
address_of c rest_vmx_high = c.rest_vmx64
address_of c save_vmx_high = c.save_vmx64

abbrev pub first_of : Helper → ℕ
first_of rest_vmx_high = 64
first_of save_vmx_high = 64
first_of _ = 14

abbrev pub last_of : Helper → ℕ
last_of rest_vmx_high = 128
last_of save_vmx_high = 128
last_of _ = 32

abbrev pub stride_of : Helper → ℕ
stride_of rest_gpr = 4
stride_of save_gpr = 4
stride_of rest_fpr = 4
stride_of save_fpr = 4
stride_of _ = 8

abbrev pub length_of : Helper → ℕ
length_of rest_gpr = 84
length_of save_gpr = 80
length_of rest_fpr = 76
length_of save_fpr = 76
length_of rest_vmx = 148
length_of save_vmx = 148
length_of _ = 516

-- The function is the part of helper `h` from the code of register `i` on to the helper's end.
abbrev pub IsPart : CrtHelperAddresses → Helper → ℕ → Function → Type 0
IsPart c h i fn =
    (address_of c h ≢ 0)
    × (first_of h ≤ i)
    × (i < last_of h)
    × (fn.base ≡ address_of c h + (i - first_of h) * stride_of h)
    × (fn.base + fn.size ≡ address_of c h + length_of h)
    × (fn.blocks ≡ [])

abbrev pub IsEntry : CrtHelperAddresses → Function → Type 0
IsEntry c fn = (h : Helper) × (i : ℕ) × IsPart c h i fn

helper_entry-All :
    (P : Function → Type 0) (address first last stride tail i : ℕ)
    → (address ≢ 0 → P (entry (address + (i - first) * stride) ((last - i) * stride + tail)))
    → All P (helper_entry address first last stride tail i)
unfolding helper_entry
helper_entry-All P address first last stride tail i h =
    if-cases (All P) (address == 0) (λ none_there. tt) (λ there. (h (ground (arith, there)), tt))

add_helper-All :
    (P : Function → Type 0) (name : String) (fns : List Function) (f : Found)
    → All P f.functions
    → All P fns
    → All P (add_helper name fns f).functions
unfolding add_helper
add_helper-All P name [] f h k = h
add_helper-All P name (fn ∷ fns) f h (k, ks) =
    add_helper-All P name fns _ (All-append P f.functions (fn ∷ []) h (k, tt)) ks

-- The bytes behind the code of a helper's last register.
abbrev pub tail_of : Helper → ℕ
tail_of rest_gpr = 12
tail_of save_gpr = 8
tail_of _ = 4

abbrev pub part : CrtHelperAddresses → Helper → ℕ → Function
part c h i =
    entry (address_of c h + (i - first_of h) * stride_of h)
      ((last_of h - i) * stride_of h + tail_of h)

module _ (names : ℕ → ℕ → String) (c : CrtHelperAddresses) where
  abbrev At : ℕ → Helper → Type 0
  At i h =
      All (IsEntry c)
        (helper_entry (address_of c h) (first_of h) (last_of h) (stride_of h) (tail_of h) i)

  add_low_helpers-All :
      (i : ℕ) (f : Found)
      → ((h : Helper) → last_of h ≡ 32 → At i h)
      → All (IsEntry c) f.functions
      → All (IsEntry c) (add_low_helpers names c i f).functions
  unfolding add_low_helpers
  add_low_helpers-All i f at h =
      let h0 = add_helper-All (IsEntry c) (names 0 i) _ f h (at rest_gpr refl) in
      let h1 = add_helper-All (IsEntry c) (names 1 i) _ _ h0 (at save_gpr refl) in
      let h2 = add_helper-All (IsEntry c) (names 2 i) _ _ h1 (at rest_fpr refl) in
      let h3 = add_helper-All (IsEntry c) (names 3 i) _ _ h2 (at save_fpr refl) in
      let h4 = add_helper-All (IsEntry c) (names 4 i) _ _ h3 (at rest_vmx refl) in
      add_helper-All (IsEntry c) (names 5 i) _ _ h4 (at save_vmx refl)

  part-IsPart : (h : Helper) (i : ℕ) → first_of h ≤ i → i < last_of h → At i h
  part-IsPart h i lo hi =
      helper_entry-All (IsEntry c) (address_of c h) (first_of h) (last_of h) (stride_of h)
        (tail_of h) i (λ there. (h, i, (there, lo, hi, refl, ends h lo hi, refl)))
    where
      ends :
          (h : Helper)
          → first_of h ≤ i
          → i < last_of h
          → (part c h i).base + (part c h i).size ≡ address_of c h + length_of h
      ends rest_gpr lo hi = omega arith
      ends save_gpr lo hi = omega arith
      ends rest_fpr lo hi = omega arith
      ends save_fpr lo hi = omega arith
      ends rest_vmx lo hi = omega arith
      ends save_vmx lo hi = omega arith
      ends rest_vmx_high lo hi = omega arith
      ends save_vmx_high lo hi = omega arith

  low_first : (h : Helper) → last_of h ≡ 32 → first_of h ≡ 14
  low_first rest_gpr e = refl
  low_first save_gpr e = refl
  low_first rest_fpr e = refl
  low_first save_fpr e = refl
  low_first rest_vmx e = refl
  low_first save_vmx e = refl
  low_first rest_vmx_high e = absurd (omega (arith, e))
  low_first save_vmx_high e = absurd (omega (arith, e))

  add_helpers_at-All :
      (i : ℕ) (f : Found)
      → 14 ≤ i
      → i < 128
      → All (IsEntry c) f.functions
      → All (IsEntry c) (add_helpers_at names c i f).functions
  unfolding add_helpers_at
  add_helpers_at-All i f lo hi h =
      let low =
        if-cases (λ (g : Found). All (IsEntry c) g.functions) (ltb i 32)
          (λ e.
            add_low_helpers-All i f
              (λ k last.
                part-IsPart k i (let at = low_first k last in omega (arith, at))
                  (let lt = ltb→lt i 32 e in omega (arith, last, lt)))
              h)
          (λ e. h) in
      if-cases (λ (g : Found). All (IsEntry c) g.functions) (leb 64 i)
        (λ e.
          let le = leb→le 64 i e in
          add_helper-All (IsEntry c) (names 7 i) _ _
            (add_helper-All (IsEntry c) (names 6 i) _ _ low (part-IsPart rest_vmx_high i le hi))
            (part-IsPart save_vmx_high i le hi))
        (λ e. low)

  pub add_helpers-All :
      (left i : ℕ) (f : Found)
      → 14 ≤ i
      → i + left ≤ 128
      → All (IsEntry c) f.functions
      → All (IsEntry c) (add_helpers names c left i f).functions
  unfolding add_helpers
  add_helpers-All zero i f lo hi h = h
  add_helpers-All (suc left) i f lo hi h =
      add_helpers-All left (i + 1) _ (omega (arith, lo)) (omega (arith, hi))
        (add_helpers_at-All i f lo (omega (arith, hi)) h)
