-- ===== src/Patch/Apply/Data.antt =====
-- The second half of `XexPatcher::apply`: the base file's data are decrypted and decompressed, and
-- the blocks of the patch applied; and `apply` on files.
use xenon_recomp.Base.{
  ℕ, zero, suc, ◌+◌, ◌-◌, Bool, true, false, not, ltb, ◌==◌, if◌then◌else◌, Option, none, some,
  sub32, u32,
}
use xenon_recomp.Memory.{Bytes, be32, copy, fill, from, zeros}
use xenon_recomp.Xex.{
  format_bytes, normal_info_bytes, key_file_format, header_size, security_offset, image_size,
  encryption_type, compression_type, get_opt_header_ptr,
}
use xenon_recomp.Xex.Load
use xenon_recomp.Xex.Load.{Env, XexError, same_bytes, collect_blocks}
use xenon_recomp.Patch.{decompress_base}
use xenon_recomp.Patch.Delta.{Lzxd, memcpy_in, lzx_decompress, delta_apply_patch}
use xenon_recomp.Patch.Apply.{
  file_open_failed, file_write_failed, xex_file_unsupported, xex_file_invalid, patch_file_invalid,
  patch_failed, Outcome, err, undefined, ok, ◌>>=◌, ◌>>◌, fail_if, or_error, defined, Buffer,
  Descriptor, window_size, first_block_at, header_target, header_room, check_patch, original_key,
  patch_key, patch_headers,
}

-- The collected data, and the errors of the collection: to run out of data is undefined.
abbrev pub collected : Load.Result (ℕ × Bytes) → Outcome (ℕ × Bytes)
collected (Load.ok r) = ok r
collected (Load.err XexError.overrun) = undefined
collected (Load.err _) = err patch_failed

-- Each block of a patch takes a byte at least: to use up the fuel is to read past the data.
module _ (env : Env) (lzxd : Lzxd) where
  -- The decryption of the base file's data in the buffer.
  unfoldable pub decrypt_base : Buffer → ℕ → ℕ → Buffer → Outcome Buffer
  decrypt_base xex format target out =
      let rest = xex.size - header_size xex.bytes in
      let key = original_key env lzxd xex.bytes in
      if encryption_type xex.bytes format == 1
      then ok (record {
        bytes = copy (env.cbc_decrypt key (from out.bytes target) rest) 0 target rest out.bytes;
        size = out.size;
      })
      else if encryption_type xex.bytes format == 0
      then ok out
      else err xex_file_invalid

  -- Normal compression: the output goes behind the room of the headers.
  unfoldable pub decompress_normal : Buffer → ℕ → ℕ → ℕ → Buffer → Outcome Buffer
  decompress_normal xex format target room out =
      let length = u32 (xex.size - header_size xex.bytes) in
      let image_n = image_size xex.bytes (security_offset xex.bytes) in
      do
        fail_if (ltb xex.size (format + format_bytes + normal_info_bytes)) xex_file_invalid
        chunks ← collected (
            collect_blocks env (length + 1) (from out.bytes target) length xex.bytes
              (first_block_at format) 0 0 zeros)
        image ←
            or_error patch_failed
              (lzx_decompress lzxd chunks.1 chunks.0 image_n (window_size xex.bytes format))
        if ltb out.size (room + image_n)
            then undefined
            else ok (record { bytes = copy image 0 room image_n out.bytes; size = out.size })

  -- The decompression of the base file's data.
  unfoldable pub decompress_data : Buffer → ℕ → ℕ → ℕ → Buffer → Outcome Buffer
  decompress_data xex format target room out =
      let kind = compression_type xex.bytes format in
      if kind == 1
      then (do
        bytes ←
            or_error xex_file_invalid
              (decompress_base xex.bytes xex.size format target out.size out.bytes)
        ok (record { bytes = bytes; size = out.size }))
      else if kind == 2
      then decompress_normal xex format target room out
      else if kind == 3
      then err xex_file_unsupported
      else if kind == 0
      then ok out
      else err xex_file_invalid

  -- The new headers say that the data are neither encrypted nor compressed.
  unfoldable pub clear_format : Buffer → Outcome Buffer
  clear_format out = do
    format ← or_error patch_failed (get_opt_header_ptr out.bytes key_file_format)
    if ltb out.size (format + format_bytes)
        then undefined
        else ok (record { bytes = fill 0 (format + 4) 4 out.bytes; size = out.size })

  -- `patchData`: the data behind the patch's headers, decrypted by the key in the new headers.
  unfoldable pub patch_data : Buffer → Buffer → ℕ → Outcome Buffer
  patch_data headers patch format =
      let rest = patch.size - header_size patch.bytes in
      let bytes = from patch.bytes (header_size patch.bytes) in
      if encryption_type patch.bytes format == 1
      then ok (record {
        bytes = env.cbc_decrypt (patch_key env lzxd headers.bytes patch.bytes) bytes rest;
        size = rest;
      })
      else if encryption_type patch.bytes format == 0
      then ok (record { bytes = bytes; size = rest })
      else err patch_file_invalid

  -- The move of a region of the image, which starts behind the new headers.
  unfoldable pub move_image : Descriptor → Buffer → Outcome Buffer
  move_image d out =
      let start = header_size out.bytes in
      if d.image_source_offset == 0 then ok out else (do
        bytes ← defined (
            memcpy_in out.size (start + d.image_source_offset) (start + d.image_target_offset)
              d.image_source_size out.bytes)
        ok (record { bytes = bytes; size = out.size }))

  -- The loop over the blocks of the patch: the header of the block stands at `b` in `info`, its data
  -- at `p` in the patch data; `start` is `outExe`.
  unfoldable pub patch_blocks : ℕ → Buffer → ℕ → Bytes → ℕ → ℕ → ℕ → Buffer → Outcome Buffer
  patch_blocks zero src window info b p start out = undefined
  patch_blocks (suc fuel) src window info b p start out =
      let block_size = be32 info b in
      let next = do
        if ltb src.size (p + block_size) then undefined else ok true
        fail_if (not (same_bytes (env.sha1 (from src.bytes p) block_size) (from info (b + 4)) 20))
            patch_failed
        bytes ← defined (
            delta_apply_patch lzxd window out.size start src.bytes (p + 24) (sub32 block_size 24)
              out.bytes)
        patch_blocks fuel src window src.bytes p (p + 24 + sub32 block_size 24) start
            (record { bytes = bytes; size = out.size })
      in if block_size == 0 then ok out else next

  -- The stage behind the test of `skipData`.
  unfoldable pub patch_image : Buffer → Buffer → Descriptor → ℕ → Buffer → Outcome Buffer
  patch_image xex patch d patch_format headers =
      let target = header_target d in
      do
        format ← or_error xex_file_invalid (get_opt_header_ptr xex.bytes key_file_format)
        fail_if (ltb xex.size (format + format_bytes)) xex_file_invalid
        plain ← decrypt_base xex format target headers
        base ← decompress_data xex format target (header_room xex d) plain
        marked ← clear_format base
        src ← patch_data headers patch patch_format
        moved ← move_image d marked
        patch_blocks (src.size + 1) src (window_size patch.bytes patch_format) patch.bytes
            (first_block_at patch_format) 0 (header_size marked.bytes) moved

  -- `XexPatcher::apply` on buffers.
  unfoldable pub apply : Buffer → Buffer → Bool → Outcome Buffer
  apply xex patch skip_data = do
    checked ← check_patch xex patch
    headers ← patch_headers env lzxd xex patch checked.0 checked.1
    if skip_data then ok headers else patch_image xex patch checked.0 checked.1 headers

  -- `XexPatcher::apply` on paths: what the files hold, if they open, and whether the output opens and
  -- is written.
  unfoldable pub apply_files : Option Buffer → Option Buffer → Bool → Bool → Outcome Buffer
  apply_files none patch opens written = err file_open_failed
  apply_files (some xex) none opens written = err file_open_failed
  apply_files (some xex) (some patch) opens written = do
    out ← apply xex patch false
    fail_if (not opens) file_open_failed
    fail_if (not written) file_write_failed
    ok out
