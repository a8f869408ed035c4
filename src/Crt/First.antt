-- ===== src/Crt/First.antt =====
-- The scan of `XenonUtils/crt_helpers.cpp` finds the first hit of each helper.
use xenon_recomp.Base.{
  ℕ, zero, suc, ◌+◌, ◌*◌, ◌/◌, ◌≡◌, refl, Bool, true, false, ◌==◌, if◌then◌else◌, if-cases, List,
  [], ◌∷◌, u32, sub32, arith,
}
use xenon_recomp.Memory.{Bytes}
use xenon_recomp.Image.{Section}
use xenon_recomp.Crt.{word_at}
use xenon_recomp.Crt.Scan.{
  CrtHelperAddresses, Hits, hits_at, keep_first, note_hits, all_found, scan_words, is_code,
  detect_from, detect_crt_helpers, no_helpers,
}

-- The first of two addresses that is not zero.
abbrev pub or_else : ℕ → ℕ → ℕ
or_else x y = if x == 0 then y else x

or_else_assoc : (x y z : ℕ) → or_else (or_else x y) z ≡ or_else x (or_else y z)
or_else_assoc x y z = ground arith

-- The first hit among the words of a section from `i` on, moved by `shift`.
abbrev pub first_word : (Hits → Bool) → (ℕ → ℕ) → (ℕ → ℕ) → ℕ → ℕ → ℕ → ℕ → ℕ
first_word pick shift word count base zero i = 0
first_word pick shift word count base (suc left) i =
    or_else (if pick (hits_at word count i) then shift (u32 (base + i * 4)) else 0)
      (first_word pick shift word count base left (i + 1))

-- The first hit in the code sections.
abbrev pub first_helper : (Hits → Bool) → (ℕ → ℕ) → Bytes → List Section → ℕ
first_helper pick shift bytes [] = 0
first_helper pick shift bytes (s ∷ ss) =
    or_else
      (if is_code s
        then first_word pick shift (word_at bytes s.data_at) (s.size / 4) s.base (s.size / 4) 0
        else 0)
      (first_helper pick shift bytes ss)

-- One field: how a word changes it, and that the early exit has it found.
module _ (get : CrtHelperAddresses → ℕ) (pick : Hits → Bool) (shift : ℕ → ℕ)
    (notes : (h : Hits) (a : ℕ) (r : CrtHelperAddresses)
      → get (note_hits h a r) ≡ keep_first (get r) (pick h) (shift a))
    (found : (r : CrtHelperAddresses) → all_found r ≡ true → (get r == 0) ≡ false) where
  scan_words-first :
      (word : ℕ → ℕ) (count base left i : ℕ) (r : CrtHelperAddresses)
      → (get (scan_words word count base left i r).0
          ≡ or_else (get r) (first_word pick shift word count base left i))
        × ((scan_words word count base left i r).1 ≡ true
            → (get (scan_words word count base left i r).0 == 0) ≡ false)
  unfolding scan_words
  scan_words-first word count base zero i r = (ground arith, ground arith)
  scan_words-first word count base (suc left) i r =
      let h = hits_at word count i in
      let a = u32 (base + i * 4) in
      let r' = note_hits h a r in
      let now = notes h a r in
      let rest = scan_words-first word count base left (i + 1) r' in
      if-cases
        (λ (s : CrtHelperAddresses × Bool).
          (get s.0
            ≡ or_else (get r) (
                or_else (if pick h then shift a else 0)
                  (first_word pick shift word count base left (i + 1))))
          × (s.1 ≡ true → (get s.0 == 0) ≡ false))
        (all_found r') (λ all. let f = found r' all in (ground (arith, now, f), λ e. f))
        (λ some. (ground (arith, now, rest.0), rest.1))

  detect_from-first :
      (bytes : Bytes) (sections : List Section) (r : CrtHelperAddresses)
      → get (detect_from bytes sections r)
        ≡ or_else (get r) (first_helper pick shift bytes sections)
  unfolding detect_from
  detect_from-first bytes [] r = ground arith
  detect_from-first bytes (s ∷ ss) r =
      let word = word_at bytes s.data_at in
      let n = s.size / 4 in
      let scan = scan_words word n s.base n 0 r in
      let scanned = scan_words-first word n s.base n 0 r in
      if-cases (λ res. get res ≡ or_else (get r) (first_helper pick shift bytes (s ∷ ss)))
        (is_code s)
        (λ code.
          if-cases (λ res. get res ≡ or_else (get r) (first_helper pick shift bytes (s ∷ ss)))
            scan.1 (λ done. let f = scanned.1 done in ground (arith, scanned.0, f, code))
            (λ on.
              let rest = detect_from-first bytes ss scan.0 in
              ground (arith, scanned.0, rest, code)))
        (λ skip. let rest = detect_from-first bytes ss r in ground (arith, rest, skip))

-- Each field is the first hit of its helper.
abbrev pub IsFirst : CrtHelperAddresses → Bytes → List Section → Type 0
IsFirst r bytes sections =
    (r.rest_gpr14 ≡ first_helper (λ h. h.hit_rest_gpr) (λ a. a) bytes sections)
    × (r.save_gpr14 ≡ first_helper (λ h. h.hit_save_gpr) (λ a. a) bytes sections)
    × (r.rest_fpr14 ≡ first_helper (λ h. h.hit_rest_fpr) (λ a. a) bytes sections)
    × (r.save_fpr14 ≡ first_helper (λ h. h.hit_save_fpr) (λ a. a) bytes sections)
    × (r.rest_vmx14 ≡ first_helper (λ h. h.hit_rest_vmx) (λ a. sub32 a 4) bytes sections)
    × (r.save_vmx14 ≡ first_helper (λ h. h.hit_save_vmx) (λ a. sub32 a 4) bytes sections)
    × (r.rest_vmx64 ≡ first_helper (λ h. h.hit_rest_vmx64) (λ a. sub32 a 4) bytes sections)
    × (r.save_vmx64 ≡ first_helper (λ h. h.hit_save_vmx64) (λ a. sub32 a 4) bytes sections)

-- Each field of the result of `DetectCrtHelpers` is the address of the first word of the code
-- sections, in their order, where its helper is hit (for the vector helpers the address of the
-- setup word before it), and 0 where there is none; the early exit changes no field.
pub detect_crt_helpers-IsFirst :
    (bytes : Bytes) (sections : List Section)
    → IsFirst (detect_crt_helpers bytes sections) bytes sections
unfolding detect_crt_helpers note_hits all_found
detect_crt_helpers-IsFirst bytes sections = (
  detect_from-first (λ r. r.rest_gpr14) (λ h. h.hit_rest_gpr) (λ a. a) (λ h a r. refl)
      (λ r e. ground arith) bytes sections no_helpers,
  detect_from-first (λ r. r.save_gpr14) (λ h. h.hit_save_gpr) (λ a. a) (λ h a r. refl)
      (λ r e. ground arith) bytes sections no_helpers,
  detect_from-first (λ r. r.rest_fpr14) (λ h. h.hit_rest_fpr) (λ a. a) (λ h a r. refl)
      (λ r e. ground arith) bytes sections no_helpers,
  detect_from-first (λ r. r.save_fpr14) (λ h. h.hit_save_fpr) (λ a. a) (λ h a r. refl)
      (λ r e. ground arith) bytes sections no_helpers,
  detect_from-first (λ r. r.rest_vmx14) (λ h. h.hit_rest_vmx) (λ a. sub32 a 4) (λ h a r. refl)
      (λ r e. ground arith) bytes sections no_helpers,
  detect_from-first (λ r. r.save_vmx14) (λ h. h.hit_save_vmx) (λ a. sub32 a 4) (λ h a r. refl)
      (λ r e. ground arith) bytes sections no_helpers,
  detect_from-first (λ r. r.rest_vmx64) (λ h. h.hit_rest_vmx64) (λ a. sub32 a 4) (λ h a r. refl)
      (λ r e. ground arith) bytes sections no_helpers,
  detect_from-first (λ r. r.save_vmx64) (λ h. h.hit_save_vmx64) (λ a. sub32 a 4) (λ h a r. refl)
      (λ r e. ground arith) bytes sections no_helpers,
)
