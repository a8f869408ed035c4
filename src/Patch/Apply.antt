-- ===== src/Patch/Apply.antt =====
-- `XexPatcher::apply` on byte buffers, in `XenonUtils/xex_patcher.cpp`. A null pointer is not
-- modelled; a read past the end of a file is not noticed, as in the code.
pub mod Data
pub mod Sizes
use xenon_recomp.Base.{
  ℕ, ◌+◌, ◌-◌, ◌*◌, ◌/◌, ◌%◌, ◌^◌, max, Bool, true, false, not, ◌&&◌, ◌||◌, ltb, ◌==◌,
  if◌then◌else◌, Option, none, some, add32,
}
use xenon_recomp.Memory.{Bytes, be32, copy, fill, from, zeros}
use xenon_recomp.Xex.{
  header_bytes, opt_header_bytes, security_bytes, format_bytes, key_file_format, header_size,
  security_offset, header_count, image_size, aes_key, compression_type, retail_key,
  get_opt_header_ptr,
}
use xenon_recomp.Xex.Load
use xenon_recomp.Xex.Load.{Env, same_bytes, max_image_size}
use xenon_recomp.Patch.Delta.{Lzxd, Patched, memcpy_in, delta_apply_patch}
use xenon_recomp.Patch.Delta

-- `XexPatcher::Result`, but for its success.
pub data PatchError : Type 0 where
  file_open_failed file_write_failed xex_file_unsupported xex_file_invalid : PatchError
  patch_file_invalid patch_incompatible patch_failed patch_unsupported : PatchError

-- An error, undefined behaviour, or a value.
pub data Outcome {ℓ} (A : Type ℓ) : Type ℓ where
  err : PatchError → Outcome A
  undefined : Outcome A
  ok : A → Outcome A

infixl 1 ◌>>=◌ ◌>>◌
abbrev pub ◌>>=◌ {ℓ κ} : {A : Type ℓ} {B : Type κ} → Outcome A → (A → Outcome B) → Outcome B
err e >>= f = err e
undefined >>= f = undefined
ok a >>= f = f a

abbrev pub ◌>>◌ {ℓ κ} : {A : Type ℓ} {B : Type κ} → Outcome A → Outcome B → Outcome B
m >> n = m >>= λ x. n

abbrev pub fail_if : Bool → PatchError → Outcome Bool
fail_if b e = if b then err e else ok true

abbrev pub or_error {ℓ} : {A : Type ℓ} → PatchError → Option A → Outcome A
or_error e none = err e
or_error e (some a) = ok a

-- A write that is undefined out of bounds.
abbrev pub defined : Patched → Outcome Bytes
defined (Patched.patched m) = ok m
defined Patched.failed = err patch_failed
defined Patched.undefined = undefined
defined Patched.unfinished = undefined

-- A file and its size; `outBytes` is one too.
pub record Buffer : Type 0 where
  pub bytes : Bytes
  pub size : ℕ

-- `ValidateXex2Headers`.
unfoldable pub validate_headers : Buffer → Bool
validate_headers f =
    let m = f.bytes in
    if ltb f.size header_bytes
    then false
    else if not (m 0 == 0x58 && m 1 == 0x45 && m 2 == 0x58 && m 3 == 0x32)
    then false
    else if ltb (header_size m) header_bytes || ltb f.size (header_size m)
    then false
    else if ltb f.size (security_offset m) || ltb (f.size - security_offset m) security_bytes
    then false
    else if ltb (header_size m) (header_bytes + header_count m * opt_header_bytes)
    then false
    else true

-- `moduleFlags` has a bit of `XEX_MODULE_MODULE_PATCH`, `XEX_MODULE_PATCH_FULL` or
-- `XEX_MODULE_PATCH_DELTA`.
abbrev pub is_patch : Bytes → Bool
is_patch m = not (be32 m 4 / 2 ^ 4 % 8 == 0)

abbrev pub key_delta_descriptor : ℕ
key_delta_descriptor = 0x5FF

-- `sizeof(Xex2OptDeltaPatchDescriptor)`, with a whole `Xex2DeltaPatch` at its end.
abbrev pub descriptor_bytes : ℕ
descriptor_bytes = 92

-- The fields of `Xex2OptDeltaPatchDescriptor`.
pub record Descriptor : Type 0 where
  pub at : ℕ
  pub size : ℕ
  pub target_headers : ℕ
  pub headers_source_offset : ℕ
  pub headers_source_size : ℕ
  pub headers_target_offset : ℕ
  pub image_source_offset : ℕ
  pub image_source_size : ℕ
  pub image_target_offset : ℕ

unfoldable pub read_descriptor : Bytes → ℕ → Descriptor
read_descriptor m p = record {
  at = p;
  size = be32 m p;
  target_headers = be32 m (p + 48);
  headers_source_offset = be32 m (p + 52);
  headers_source_size = be32 m (p + 56);
  headers_target_offset = be32 m (p + 60);
  image_source_offset = be32 m (p + 64);
  image_source_size = be32 m (p + 68);
  image_target_offset = be32 m (p + 72);
}

-- `imageKeySource` and `info`.
abbrev pub key_source_at : Descriptor → ℕ
key_source_at d = d.at + 32

abbrev pub info_at : Descriptor → ℕ
info_at d = d.at + 76

-- `windowSize` and `firstBlock` behind the format information at `p`.
abbrev pub window_size : Bytes → ℕ → ℕ
window_size m p = be32 m (p + format_bytes)

abbrev pub first_block_at : ℕ → ℕ
first_block_at p = p + format_bytes + 4

-- `headerTargetSize`.
unfoldable pub header_target : Descriptor → ℕ
header_target d =
    if d.target_headers == 0
    then add32 d.headers_target_offset d.headers_source_size
    else d.target_headers

-- The guards on the patch's format and on the header regions; the descriptor and the offset of the
-- patch's format information.
unfoldable pub check_patch : Buffer → Buffer → Outcome (Descriptor × ℕ)
check_patch xex patch =
    let headers = header_size xex.bytes in
    do
      fail_if (not (validate_headers xex)) xex_file_invalid
      fail_if (not (validate_headers patch)) patch_file_invalid
      fail_if (not (is_patch patch.bytes)) patch_file_invalid
      at ← or_error patch_file_invalid (get_opt_header_ptr patch.bytes key_delta_descriptor)
      fail_if (ltb patch.size (at + descriptor_bytes)) patch_file_invalid
      format ← or_error patch_file_invalid (get_opt_header_ptr patch.bytes key_file_format)
      fail_if (ltb patch.size (format + format_bytes)) patch_file_invalid
      fail_if (not (compression_type patch.bytes format == 3)) patch_file_invalid
      let d = read_descriptor patch.bytes at
      fail_if (ltb headers d.headers_source_offset) patch_incompatible
      fail_if (ltb (headers - d.headers_source_offset) d.headers_source_size) patch_incompatible
      fail_if (ltb d.target_headers d.headers_target_offset) patch_incompatible
      fail_if (ltb (d.target_headers - d.headers_target_offset) d.headers_source_size)
          patch_incompatible
      fail_if (ltb xex.size (header_target d)) patch_incompatible
      fail_if (ltb patch.size d.size || ltb patch.size (info_at d + d.size)) patch_file_invalid
      ok (d, format)

-- `newXexHeaderSize`, the size of the buffer in which the headers are patched.
unfoldable pub header_room : Buffer → Descriptor → ℕ
header_room xex d = max (header_target d) (header_size xex.bytes)

-- The copy of the headers, with the moved region.
unfoldable pub move_headers : Buffer → Descriptor → Patched
move_headers xex d =
    let copied = copy xex.bytes 0 0 (header_target d) zeros in
    if d.headers_source_offset == 0
    then Patched.patched copied
    else memcpy_in (header_room xex d) d.headers_source_offset d.headers_target_offset
        d.headers_source_size copied

-- The guards on the patched headers, and the base file's data behind them.
unfoldable pub append_image : Buffer → ℕ → Bytes → Outcome Buffer
append_image xex target m =
    let security = security_offset m in
    let image_n = image_size m security in
    let rest = xex.size - header_size xex.bytes in
    do
      fail_if (ltb target (security + security_bytes)) patch_failed
      fail_if (image_n == 0 || ltb max_image_size image_n) patch_failed
      fail_if (ltb image_n rest) xex_file_invalid
      ok (record {
        bytes = copy xex.bytes (header_size xex.bytes) target rest (fill 0 target image_n m);
        size = target + image_n;
      })

module _ (env : Env) (lzxd : Lzxd) where
  -- `decryptedOriginalKey`, and `decryptedNewKey`, `decryptedPatchKey` and `decrpytedImageKeySource`
  -- by the headers in `m`.
  unfoldable pub original_key : Bytes → Bytes
  original_key xex = env.cbc_decrypt retail_key (aes_key xex (security_offset xex)) 16

  unfoldable pub patch_key : Bytes → Bytes → Bytes
  patch_key m patch = env.cbc_decrypt (original_key m) (aes_key patch (security_offset patch)) 16

  unfoldable pub key_source : Bytes → Bytes → Descriptor → Bytes
  key_source m patch d = env.cbc_decrypt (original_key m) (from patch (key_source_at d)) 16

  -- The header stage: all up to the test of `skipData`.
  unfoldable pub patch_headers : Buffer → Buffer → Descriptor → ℕ → Outcome Buffer
  patch_headers xex patch d format = do
    moved ← defined (move_headers xex d)
    headers ← defined (
        delta_apply_patch lzxd (window_size patch.bytes format) (header_room xex d) 0 patch.bytes
          (info_at d) d.size moved)
    out ← append_image xex (header_target d) headers
    fail_if (not (same_bytes (key_source out.bytes patch.bytes d) (original_key xex.bytes) 16))
        patch_incompatible
    ok out
