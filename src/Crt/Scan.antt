-- ===== src/Crt/Scan.antt =====
-- The scan of `DetectCrtHelpers` over the code sections.
use xenon_recomp.Base.{
  ℕ, zero, suc, ◌+◌, ◌*◌, ◌/◌, ◌%◌, Bool, true, false, not, ◌&&◌, ◌||◌, ◌==◌, if◌then◌else◌, List,
  [], ◌∷◌, u32, sub32,
}
use xenon_recomp.Memory.{Bytes}
use xenon_recomp.Image.{Section}
use xenon_recomp.Crt.{
  is_ld, is_lwz, is_std, is_stw, is_lfd, is_stfd, is_lvx, is_stvx, is_lvx128, is_stvx128, ra,
  word_at, gpr_load, gpr_store, fpr_load, fpr_store, detect_register_run, detect_vector_pair_run,
}

pub record CrtHelperAddresses : Type 0 where
  pub rest_gpr14 : ℕ
  pub save_gpr14 : ℕ
  pub rest_fpr14 : ℕ
  pub save_fpr14 : ℕ
  pub rest_vmx14 : ℕ
  pub save_vmx14 : ℕ
  pub rest_vmx64 : ℕ
  pub save_vmx64 : ℕ

abbrev pub no_helpers : CrtHelperAddresses
no_helpers = record {
  rest_gpr14 = 0;
  save_gpr14 = 0;
  rest_fpr14 = 0;
  save_fpr14 = 0;
  rest_vmx14 = 0;
  save_vmx14 = 0;
  rest_vmx64 = 0;
  save_vmx64 = 0;
}

-- Whether a helper starts at word `i` of a section with `count` words: the trigger, and the run
-- that must follow it.
pub record Hits : Type 0 where
  pub hit_rest_gpr : Bool
  pub hit_save_gpr : Bool
  pub hit_rest_fpr : Bool
  pub hit_save_fpr : Bool
  pub hit_rest_vmx : Bool
  pub hit_save_vmx : Bool
  pub hit_rest_vmx64 : Bool
  pub hit_save_vmx64 : Bool

unfoldable pub hits_at : (ℕ → ℕ) → ℕ → ℕ → Hits
hits_at word count i =
    let insn = word i in
    let ld64 = is_ld insn 14 1 in
    let st64 = is_std insn 14 1 in
    record {
      hit_rest_gpr =
          (ld64 || is_lwz insn 14 1)
          && detect_register_run word count i 14 18 (if ld64 then 8 else 4) (gpr_load ld64 1);
      hit_save_gpr =
          (st64 || is_stw insn 14 1)
          && detect_register_run word count i 14 18 (if st64 then 8 else 4) (gpr_store st64 1);
      hit_rest_fpr =
          is_lfd insn 14 && detect_register_run word count i 14 18 8 (fpr_load (ra insn));
      hit_save_fpr =
          is_stfd insn 14 && detect_register_run word count i 14 18 8 (fpr_store (ra insn));
      hit_rest_vmx = is_lvx insn 14 && detect_vector_pair_run word count i 14 18 is_lvx;
      hit_save_vmx = is_stvx insn 14 && detect_vector_pair_run word count i 14 18 is_stvx;
      hit_rest_vmx64 = is_lvx128 insn 64 && detect_vector_pair_run word count i 64 64 is_lvx128;
      hit_save_vmx64 = is_stvx128 insn 64 && detect_vector_pair_run word count i 64 64 is_stvx128;
    }

-- A result field is written once: while it is zero, at a hit.
abbrev pub keep_first : ℕ → Bool → ℕ → ℕ
keep_first old hit address = if old == 0 && hit then address else old

-- The body of the loop over the words.
unfoldable pub note_hits : Hits → ℕ → CrtHelperAddresses → CrtHelperAddresses
note_hits h address r = record {
  rest_gpr14 = keep_first r.rest_gpr14 h.hit_rest_gpr address;
  save_gpr14 = keep_first r.save_gpr14 h.hit_save_gpr address;
  rest_fpr14 = keep_first r.rest_fpr14 h.hit_rest_fpr address;
  save_fpr14 = keep_first r.save_fpr14 h.hit_save_fpr address;
  rest_vmx14 = keep_first r.rest_vmx14 h.hit_rest_vmx (sub32 address 4);
  save_vmx14 = keep_first r.save_vmx14 h.hit_save_vmx (sub32 address 4);
  rest_vmx64 = keep_first r.rest_vmx64 h.hit_rest_vmx64 (sub32 address 4);
  save_vmx64 = keep_first r.save_vmx64 h.hit_save_vmx64 (sub32 address 4);
}

-- The condition of the early exit.
unfoldable pub all_found : CrtHelperAddresses → Bool
all_found r =
    not (r.rest_gpr14 == 0)
    && not (r.save_gpr14 == 0)
    && not (r.rest_fpr14 == 0)
    && not (r.save_fpr14 == 0)
    && not (r.rest_vmx14 == 0)
    && not (r.save_vmx14 == 0)
    && not (r.rest_vmx64 == 0)
    && not (r.save_vmx64 == 0)

-- The loop over the words of a section from `i` on, with `left` words to go. The flag says that
-- the function has returned.
unfoldable pub scan_words : (ℕ → ℕ) → ℕ → ℕ → ℕ → ℕ → CrtHelperAddresses → CrtHelperAddresses × Bool
unfolding note_hits hits_at all_found
scan_words word count base zero i r = (r, false)
scan_words word count base (suc left) i r =
    let r' = note_hits (hits_at word count i) (u32 (base + i * 4)) r in
    let rest = scan_words word count base left (i + 1) r' in
    if all_found r' then (r', true) else rest

abbrev pub is_code : Section → Bool
is_code s = s.flags / 2 % 2 == 1

-- `DetectCrtHelpers`, from the result so far on.
unfoldable pub detect_from : Bytes → List Section → CrtHelperAddresses → CrtHelperAddresses
unfolding scan_words word_at
detect_from bytes [] r = r
detect_from bytes (s ∷ ss) r =
    let skipped = detect_from bytes ss r in
    let scan = scan_words (word_at bytes s.data_at) (s.size / 4) s.base (s.size / 4) 0 r in
    let rest = detect_from bytes ss scan.0 in
    if is_code s then (if scan.1 then scan.0 else rest) else skipped

unfoldable pub detect_crt_helpers : Bytes → List Section → CrtHelperAddresses
unfolding detect_from
detect_crt_helpers bytes sections = detect_from bytes sections no_helpers
