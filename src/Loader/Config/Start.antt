-- ===== src/Loader/Config/Start.antt =====
-- `Recompiler::LoadConfig` of `XenonRecomp/recompiler.cpp`: the file, its patch, the image and the
-- addresses of the register helpers.
use Prim.Native.String.{String}
use text.Mathlib.Text.{◌==◌ as str_eq}
use xenon_recomp.Base.{
  ap, sym, subst, ◌∙◌, inl, inr, Bool-cases, Option-cases, some-injective, ℕ, ◌≡◌, refl, Bool, true,
  false, not, ◌&&◌, ◌==◌, if◌then◌else◌, Option, none, some, List, [], ◌∷◌,
}
use xenon_recomp.Memory.{Bytes}
use xenon_recomp.Image.{Section}
use xenon_recomp.Crt.Scan.{CrtHelperAddresses, detect_crt_helpers}
use xenon_recomp.Xex.Load.{Env}
use xenon_recomp.Xex.Imports.{Program, Exports}
use xenon_recomp.Patch.Delta.{Lzxd}
use xenon_recomp.Patch.Apply
use xenon_recomp.Patch.Apply.{PatchError, Outcome, Buffer}
use xenon_recomp.Patch.Apply.Data.{apply}
use xenon_recomp.Loader.{Parsed, parse_image}
use xenon_recomp.Loader.Config.{Settings}

-- The error returns.
pub data StartError : Type 0 where
  no_xex_file no_patch_file not_parsed : StartError
  not_patched : PatchError → StartError

-- The settings with the addresses, the image, and the patched file where it is written.
pub record Started : Type 0 where
  pub settings : Settings
  pub program : Program
  pub written : Option Buffer

pub data StartResult : Type 0 where
  failed : StartError → StartResult
  undefined : StartResult
  started : Started → StartResult

-- `detectHelper`.
unfoldable pub detect_helper : ℕ → ℕ → ℕ
detect_helper configured detected =
    if configured == 0 && not (detected == 0) then detected else configured

unfoldable pub detect_helpers : CrtHelperAddresses → CrtHelperAddresses → CrtHelperAddresses
unfolding detect_helper
detect_helpers c d = record {
  rest_gpr14 = detect_helper c.rest_gpr14 d.rest_gpr14;
  save_gpr14 = detect_helper c.save_gpr14 d.save_gpr14;
  rest_fpr14 = detect_helper c.rest_fpr14 d.rest_fpr14;
  save_fpr14 = detect_helper c.save_fpr14 d.save_fpr14;
  rest_vmx14 = detect_helper c.rest_vmx14 d.rest_vmx14;
  save_vmx14 = detect_helper c.save_vmx14 d.save_vmx14;
  rest_vmx64 = detect_helper c.rest_vmx64 d.rest_vmx64;
  save_vmx64 = detect_helper c.save_vmx64 d.save_vmx64;
}

abbrev pub no_sections : List Section → Bool
no_sections [] = true
no_sections (s ∷ ss) = false

-- `load_file` is `LoadFile`, none for an empty result; `writable` says which files open for writing.
module _ (env : Env) (lzxd : Lzxd) (strlen : Bytes → ℕ → ℕ) (exports : Exports)
    (load_file : String → Option Buffer) (writable : String → Bool) where
  -- The image of a file, and the addresses that the settings do not name.
  unfoldable pub start_image : Settings → Option Buffer → Parsed → StartResult
  start_image c written Parsed.empty = failed not_parsed
  start_image c written Parsed.undefined = undefined
  start_image c written (Parsed.parsed p) =
      if no_sections p.image.sections
      then failed not_parsed
      else started (record {
        settings = record c {
          helpers = detect_helpers c.helpers (detect_crt_helpers p.image.bytes p.image.sections);
        };
        program = p;
        written = written;
      })

  unfoldable pub start_file : Settings → Option Buffer → Buffer → StartResult
  start_file c written f = start_image c written (parse_image env strlen exports f.bytes f.size)

  -- The base file by the result of its patch.
  unfoldable pub start_patched : Settings → Outcome Buffer → StartResult
  start_patched c (Apply.err e) = failed (not_patched e)
  start_patched c Apply.undefined = undefined
  start_patched c (Apply.ok out) =
      start_file c
        (if not (str_eq c.patched_file_path "") && writable c.patched_file_path
          then some out
          else none)
        out

  unfoldable pub start_base : Settings → Option Buffer → StartResult
  start_base c none = failed no_xex_file
  start_base c (some xex) =
      if str_eq c.patch_file_path ""
      then start_file c none xex
      else elim (load_file c.patch_file_path) [
        | none ↦ failed no_patch_file
        | some patch ↦ start_patched c (apply env lzxd xex patch false)
      ]

  -- `LoadConfig` behind `RecompilerConfig::Load`: a patched file that is there already is taken as it
  -- is.
  unfoldable pub load_config : Settings → StartResult
  load_config c =
      let patched = if str_eq c.patched_file_path "" then none else load_file c.patched_file_path in
      elim patched [ some f ↦ start_file c none f | none ↦ start_base c (load_file c.file_path) ]

-- The same start without a file written.
abbrev pub unwritten : Started → Started
unwritten r = record { settings = r.settings; program = r.program; written = none }

started-injective : {a b : Started} → started a ≡ started b → a ≡ b
started-injective h = cc

module _ (env : Env) (lzxd : Lzxd) (strlen : Bytes → ℕ → ℕ) (exports : Exports)
    (load_file later_file : String → Option Buffer) (writable later_writable : String → Bool)
    (c : Settings) (r : Started) where
  -- The start by an image does not depend on what is written.
  start_image-unwritten :
      (w : Option Buffer) (p : Parsed)
      → start_image env lzxd strlen exports load_file writable c w p ≡ started r
      → (start_image env lzxd strlen exports later_file later_writable c none p
          ≡ started (unwritten r))
        × (r.written ≡ w)
  unfolding start_image
  start_image-unwritten w Parsed.empty h = absurd cc
  start_image-unwritten w Parsed.undefined h = absurd cc
  start_image-unwritten w (Parsed.parsed p) h = elim (Bool-cases (no_sections p.image.sections)) [
    | inl none_there ↦ absurd (never (rw none_there at h))
    | inr some_there ↦
        let e = started-injective (rw some_there at h) in
        (rw some_there (ap (λ x. started (unwritten x)) e), ap (λ x. x.written) (sym e))
  ]
    where
      never : failed not_parsed ≡ started r → ⊥
      never e = cc

  start_file-unwritten :
      (w : Option Buffer) (f : Buffer)
      → start_file env lzxd strlen exports load_file writable c w f ≡ started r
      → (start_file env lzxd strlen exports later_file later_writable c none f
          ≡ started (unwritten r))
        × (r.written ≡ w)
  unfolding start_file
  start_file-unwritten w f h =
      start_image-unwritten w (parse_image env strlen exports f.bytes f.size) h

  module _ (out : Buffer) (wrote : r.written ≡ some out) where
    -- What is left to show: the written file has a name, and starts by itself.
    abbrev Restarts : Type 0
    Restarts =
        (str_eq c.patched_file_path "" ≡ false)
        × (start_file env lzxd strlen exports later_file later_writable c none out
            ≡ started (unwritten r))

    not_written :
        (f : Buffer)
        → start_file env lzxd strlen exports load_file writable c none f ≡ started r
        → Restarts
    not_written f h = absurd (never (sym (start_file-unwritten none f h).1 ∙ wrote))
      where
        never : none ≡ some out → ⊥
        never e = cc

    start_patched-restarts :
        (o : Outcome Buffer)
        → start_patched env lzxd strlen exports load_file writable c o ≡ started r
        → Restarts
    unfolding start_patched
    start_patched-restarts (Apply.err e) h = absurd cc
    start_patched-restarts Apply.undefined h = absurd cc
    start_patched-restarts (Apply.ok f) h =
        elim (Bool-cases (not (str_eq c.patched_file_path "") && writable c.patched_file_path)) [
          | inr no_file ↦ not_written f (rw no_file at h)
          | inl named ↦
              let (starts, written) = start_file-unwritten (some f) f (rw named at h) in
              let same : f ≡ out = some-injective _ _ (sym written ∙ wrote) in
              (
                not_both _ _ named,
                subst
                    (λ (x : Buffer).
                      start_file env lzxd strlen exports later_file later_writable c none x
                      ≡ started (unwritten r))
                    same starts,
              )
        ]
      where
        not_both : (a b : Bool) → (not a && b) ≡ true → a ≡ false
        not_both true b e = absurd cc
        not_both false b e = refl

    start_base-restarts :
        (o : Option Buffer)
        → start_base env lzxd strlen exports load_file writable c o ≡ started r
        → Restarts
    unfolding start_base
    start_base-restarts none h = absurd cc
    start_base-restarts (some xex) h = elim (Bool-cases (str_eq c.patch_file_path "")) [
      | inl unpatched ↦ not_written xex (rw unpatched at h)
      | inr patched ↦ elim (Option-cases (load_file c.patch_file_path)) [
        | inl missing ↦ absurd (never (rw missing at (rw patched at h)))
        | inr (patch, found) ↦
            start_patched-restarts (apply env lzxd xex patch false) (rw found at (rw patched at h))
      ]
    ]
      where
        never : failed no_patch_file ≡ started r → ⊥
        never e = cc

    load_config-Restarts :
        load_config env lzxd strlen exports load_file writable c ≡ started r → Restarts
    unfolding load_config
    load_config-Restarts h = elim (Bool-cases (str_eq c.patched_file_path "")) [
      | inl unnamed ↦ start_base-restarts (load_file c.file_path) (rw (unnamed, load_config) at h)
      | inr named ↦ elim (Option-cases (load_file c.patched_file_path)) [
        | inl missing ↦
            start_base-restarts (load_file c.file_path) (rw (named, missing, load_config) at h)
        | inr (f, found) ↦ not_written f (rw (named, found, load_config) at h)
      ]
    ]

    -- Where a start writes the patched file, a later start that finds it, whatever the other files are
    -- then, has the same image and the same settings with all addresses.
    pub load_config-restarts :
        load_config env lzxd strlen exports load_file writable c ≡ started r
        → later_file c.patched_file_path ≡ some out
        → load_config env lzxd strlen exports later_file later_writable c ≡ started (unwritten r)
    unfolding load_config
    load_config-restarts h there =
        let (named, starts) = load_config-Restarts h in rw (named, there, load_config) starts
