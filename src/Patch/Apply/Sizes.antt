-- ===== src/Patch/Apply/Sizes.antt =====
-- What a patch that is applied says of the sizes of the file that it makes.
use xenon_recomp.Patch.Apply.{
  xex_file_invalid, patch_failed, Outcome, err, undefined, ok, ◌>>=◌, fail_if, or_error, defined,
  Buffer, Descriptor, info_at, window_size, first_block_at, header_target, check_patch, header_room,
  move_headers, append_image, patch_headers,
}
use xenon_recomp.Patch.Apply.Data.{
  collected, decrypt_base, decompress_normal, decompress_data, clear_format, patch_data, move_image,
  patch_blocks, patch_image, apply,
}
use xenon_recomp.Xex.{
  format_bytes, normal_info_bytes, key_file_format, header_size, security_offset, image_size,
  compression_type, get_opt_header_ptr,
}
use xenon_recomp.Patch.{decompress_base}
use xenon_recomp.Patch.Delta.{Lzxd, lzx_decompress, delta_apply_patch}
use xenon_recomp.Memory.{Bytes, be32, from, zeros}
use xenon_recomp.Xex.Load.{Env, same_bytes, collect_blocks}
use xenon_recomp.Base.{
  ℕ, zero, suc, ◌+◌, ◌-◌, ◌^◌, ◌≤◌, ◌<◌, ◌≡◌, refl, ◌∙◌, u32, sub32, Bool, true, false, not, ltb,
  ◌==◌, if◌then◌else◌, if-cases, arith,
}

-- A chain that gives a value: its first step gives one, and the rest does from there.
pub bind-ok {ℓ κ} :
    {A : Type ℓ} {B : Type κ} (m : Outcome A) (f : A → Outcome B) (b : B)
    → (m >>= f) ≡ ok b
    → (a : A) × (m ≡ ok a) × (f a ≡ ok b)
bind-ok (err e) f b h = absurd cc
bind-ok undefined f b h = absurd cc
bind-ok (ok a) f b h = (a, refl, h)

ok-injective {ℓ} : {A : Type ℓ} {a b : A} → ok a ≡ ok b → a ≡ b
ok-injective h = cc

module _ (xex : Buffer) (target : ℕ) (m : Bytes) where
  -- The guards on the patched headers.
  append_image-Sized :
      (out : Buffer)
      → append_image xex target m ≡ ok out
      → (388 ≤ target)
        × (target < out.size)
        × (out.size ≤ target + 2 ^ 30)
        × (xex.size - header_size xex.bytes ≤ out.size - target)
  unfolding append_image
  append_image-Sized out h = ground arith

module _ (env : Env) (lzxd : Lzxd) where
  decrypt_base-size :
      (xex : Buffer) (format target : ℕ) (b out : Buffer)
      → decrypt_base env lzxd xex format target b ≡ ok out
      → out.size ≡ b.size
  unfolding decrypt_base
  decrypt_base-size xex format target b out h = ground arith

  decompress_normal-size :
      (xex : Buffer) (format target room : ℕ) (b out : Buffer)
      → decompress_normal env lzxd xex format target room b ≡ ok out
      → out.size ≡ b.size
  unfolding decompress_normal
  decompress_normal-size xex format target room b out h =
      let length = u32 (xex.size - header_size xex.bytes) in
      let image_n = image_size xex.bytes (security_offset xex.bytes) in
      let (t, _, h1) =
        bind-ok
          (fail_if (ltb xex.size (format + format_bytes + normal_info_bytes)) xex_file_invalid) _
          out h in
      let (chunks, _, h2) =
        bind-ok
          (collected (
            collect_blocks env (length + 1) (from b.bytes target) length xex.bytes
              (first_block_at format) 0 0 zeros))
          _ out h1 in
      let (image, _, h3) =
        bind-ok
          (or_error patch_failed
            (lzx_decompress lzxd chunks.1 chunks.0 image_n (window_size xex.bytes format)))
          _ out h2 in
      ground (arith, h3)

  decompress_data-size :
      (xex : Buffer) (format target room : ℕ) (b out : Buffer)
      → decompress_data env lzxd xex format target room b ≡ ok out
      → out.size ≡ b.size
  unfolding decompress_data
  decompress_data-size xex format target room b out h =
      let kind = compression_type xex.bytes format in
      if-cases (λ r. r ≡ ok out → out.size ≡ b.size) (kind == 1)
        (λ basic e.
          let (bytes, _, e') =
            bind-ok
              (or_error xex_file_invalid
                (decompress_base xex.bytes xex.size format target b.size b.bytes))
              _ out e in
          ground (arith, e'))
        (λ other.
          if-cases (λ r. r ≡ ok out → out.size ≡ b.size) (kind == 2)
            (λ normal e. decompress_normal-size xex format target room b out e)
            (λ neither e. ground (arith, e)))
        h

  clear_format-size : (b out : Buffer) → clear_format env lzxd b ≡ ok out → out.size ≡ b.size
  unfolding clear_format
  clear_format-size b out h =
      let (format, _, h') =
        bind-ok (or_error patch_failed (get_opt_header_ptr b.bytes key_file_format)) _ out h in
      ground (arith, h')

  move_image-size :
      (d : Descriptor) (b out : Buffer) → move_image env lzxd d b ≡ ok out → out.size ≡ b.size
  unfolding move_image
  move_image-size d b out h = ground (arith)

  patch_blocks-size :
      (fuel : ℕ) (src : Buffer) (window : ℕ) (info : Bytes) (at p start : ℕ) (b out : Buffer)
      → patch_blocks env lzxd fuel src window info at p start b ≡ ok out
      → out.size ≡ b.size
  unfolding patch_blocks
  patch_blocks-size zero src window info at p start b out h = absurd cc
  patch_blocks-size (suc fuel) src window info at p start b out h =
      let n = be32 info at in
      if-cases (λ r. r ≡ ok out → out.size ≡ b.size) (n == 0) (λ last e. ground (arith, e))
        (λ more e.
          let (t, _, e1) = bind-ok (if ltb src.size (p + n) then undefined else ok true) _ out e in
          let (t', _, e2) =
            bind-ok
              (fail_if (not (same_bytes (env.sha1 (from src.bytes p) n) (from info (at + 4)) 20))
                patch_failed)
              _ out e1 in
          let (bytes, _, e3) =
            bind-ok
              (defined (
                delta_apply_patch lzxd window b.size start src.bytes (p + 24) (sub32 n 24) b.bytes))
              _ out e2 in
          patch_blocks-size fuel src window src.bytes p (p + 24 + sub32 n 24) start
            (record { bytes = bytes; size = b.size }) out e3)
        h

  patch_image-size :
      (xex patch : Buffer) (d : Descriptor) (patch_format : ℕ) (b out : Buffer)
      → patch_image env lzxd xex patch d patch_format b ≡ ok out
      → out.size ≡ b.size
  unfolding patch_image
  patch_image-size xex patch d patch_format b out h =
      let (format, _, h1) =
        bind-ok (or_error xex_file_invalid (get_opt_header_ptr xex.bytes key_file_format)) _ out
          h in
      let (t, _, h2) =
        bind-ok (fail_if (ltb xex.size (format + format_bytes)) xex_file_invalid) _ out h1 in
      let (plain, e3, h3) =
        bind-ok (decrypt_base env lzxd xex format (header_target d) b) _ out h2 in
      let (base, e4, h4) =
        bind-ok (decompress_data env lzxd xex format (header_target d) (header_room xex d) plain) _
          out h3 in
      let (marked, e5, h5) = bind-ok (clear_format env lzxd base) _ out h4 in
      let (src, _, h6) = bind-ok (patch_data env lzxd b patch patch_format) _ out h5 in
      let (moved, e7, h7) = bind-ok (move_image env lzxd d marked) _ out h6 in
      patch_blocks-size _ src _ _ _ _ _ moved out h7
      ∙ move_image-size d marked moved e7
      ∙ clear_format-size base marked e5
      ∙ decompress_data-size xex format _ _ plain base e4
      ∙ decrypt_base-size xex format _ b plain e3

-- What the guards on the descriptor leave of it.
check_patch-Checked :
    (xex patch : Buffer) (d : Descriptor) (format : ℕ)
    → check_patch xex patch ≡ ok (d, format)
    → (d.headers_target_offset ≤ d.target_headers)
      × (d.headers_source_size ≤ d.target_headers - d.headers_target_offset)
      × (header_target d ≤ xex.size)
unfolding check_patch
check_patch-Checked xex patch d format h = ground arith

-- Without a size of the new headers in the descriptor, the guards leave none.
header_target-named :
    (d : Descriptor)
    → d.headers_target_offset ≤ d.target_headers
    → d.headers_source_size ≤ d.target_headers - d.headers_target_offset
    → 388 ≤ header_target d
    → header_target d ≡ d.target_headers
unfolding header_target
header_target-named d h k l = ground arith

module _ (env : Env) (lzxd : Lzxd) (xex patch : Buffer) where
  patch_headers-Sized :
      (d : Descriptor) (format : ℕ) (out : Buffer)
      → patch_headers env lzxd xex patch d format ≡ ok out
      → (388 ≤ header_target d)
        × (header_target d < out.size)
        × (out.size ≤ header_target d + 2 ^ 30)
        × (xex.size - header_size xex.bytes ≤ out.size - header_target d)
  unfolding patch_headers
  patch_headers-Sized d format out h =
      let (moved, _, h1) = bind-ok (defined (move_headers xex d)) _ out h in
      let (headers, _, h2) =
        bind-ok
          (defined (
            delta_apply_patch lzxd (window_size patch.bytes format) (header_room xex d) 0
              patch.bytes (info_at d) d.size moved))
          _ out h1 in
      let (b, e3, h3) = bind-ok (append_image xex (header_target d) headers) _ out h2 in
      let same : out.size ≡ b.size = ground (arith, h3) in
      rw same (append_image-Sized xex (header_target d) headers b e3)

  patch_image_or_skip-size :
      (d : Descriptor) (format : ℕ) (skip_data : Bool) (b out : Buffer)
      → (if skip_data then ok b else patch_image env lzxd xex patch d format b) ≡ ok out
      → out.size ≡ b.size
  patch_image_or_skip-size d format true b out h = ground (arith, h)
  patch_image_or_skip-size d format false b out h =
      patch_image-size env lzxd xex patch d format b out h

  -- Where a patch is applied to a file, with or without its data, the descriptor that its guards
  -- accept names the size of the new headers itself, from the 388 bytes of a security info to the
  -- size of the file. The result has these headers and an image of 1 to 2 ^ 30 bytes, which has room
  -- for all data of the file.
  pub apply-Sized :
      (skip_data : Bool) (out : Buffer)
      → apply env lzxd xex patch skip_data ≡ ok out
      → (d : Descriptor) × (format : ℕ) × (check_patch xex patch ≡ ok (d, format))
        × (388 ≤ d.target_headers)
        × (d.target_headers ≤ xex.size)
        × (d.target_headers < out.size)
        × (out.size ≤ d.target_headers + 2 ^ 30)
        × (xex.size - header_size xex.bytes ≤ out.size - d.target_headers)
  unfolding apply
  apply-Sized skip_data out h =
      let (checked, e1, h1) = bind-ok (check_patch xex patch) _ out h in
      let (b, e2, h2) = bind-ok (patch_headers env lzxd xex patch checked.0 checked.1) _ out h1 in
      let guards = check_patch-Checked xex patch checked.0 checked.1 e1 in
      let sizes = patch_headers-Sized checked.0 checked.1 b e2 in
      let same = patch_image_or_skip-size checked.0 checked.1 skip_data b out h2 in
      let target : header_target checked.0 ≡ checked.0.target_headers =
        header_target-named checked.0 guards.0 guards.1 sizes.0 in
      (
        checked.0,
        checked.1,
        e1,
        omega (arith, target, sizes),
        omega (arith, target, guards),
        omega (arith, target, sizes, same),
        omega (arith, target, sizes, same),
        omega (arith, target, sizes, same),
      )
