-- ===== src/Xex/Load/Laws.antt =====
-- What a successful `Xex2LoadImage` of `XenonUtils/xex.cpp` guarantees.
use xenon_recomp.Base.{
  ℕ, ◌+◌, ◌-◌, ◌*◌, ◌^◌, ◌≤◌, ◌<◌, ◌≡◌, refl, subst, Bool, true, false, ◌||◌, ltb, ◌==◌, Option,
  none, some, [], All, arith,
}
use xenon_recomp.Memory.{Bytes, be32}
use xenon_recomp.Image.{find_address}
use xenon_recomp.Xex.{
  header_bytes, opt_header_bytes, security_bytes, header_size, security_offset, header_count,
  image_size, get_opt_header_ptr, key_file_format, key_image_base, load_address,
}
use xenon_recomp.Xex.Pe.{
  map_pe_sections, section_count, lfanew, nt_bytes, InImage, map_pe_sections-InImage,
  find_address-InImage,
}
use xenon_recomp.Xex.Load.{
  Env, Image, Result, err, ok, or_error, too_small, header_size_bounds, security_bounds,
  opt_header_bounds, bad_image_size, section_bounds, max_image_size, ◌>>=◌, fail_if, XexError,
  check_headers, load_bytes, check_pe, field_or, map_image, xex2_load_image,
}

bind-ok {ℓ κ} :
    {A : Type ℓ} {B : Type κ} (r : Result A) (f : A → Result B) (b : B)
    → (r >>= f) ≡ ok b
    → (a : A) × (r ≡ ok a) × (f a ≡ ok b)
bind-ok (err e) f b h = absurd cc
bind-ok (ok a) f b h = (a, refl, h)

guarded {ℓ} :
    {A : Type ℓ} (b : Bool) (e : XexError) (r : Result A) (a : A)
    → (fail_if b e >>= λ x. r) ≡ ok a
    → (b ≡ false) × (r ≡ ok a)
guarded true e r a h = absurd cc
guarded false e r a h = (refl, h)

checked : (b : Bool) (e : XexError) (r : Bool) → fail_if b e ≡ ok r → b ≡ false
checked true e r h = absurd cc
checked false e r h = refl

or_error-ok {ℓ} :
    {A : Type ℓ} (e : XexError) (o : Option A) (a : A) → or_error e o ≡ ok a → o ≡ some a
or_error-ok e none a h = absurd cc
or_error-ok e (some x) a h = cc

-- The regions of the file that the loader reads its headers from lie in the file.
abbrev pub HeadersFit : Bytes → ℕ → Type 0
HeadersFit m n =
    (header_bytes ≤ header_size m)
    × (header_size m ≤ n)
    × (security_offset m + security_bytes ≤ n)
    × (header_bytes + header_count m * opt_header_bytes ≤ header_size m)
    × (0 < image_size m (security_offset m))
    × (image_size m (security_offset m) ≤ 2 ^ 30)

check_headers-HeadersFit :
    (m : Bytes) (n : ℕ) (r : Bool) → check_headers m n ≡ ok r → HeadersFit m n
unfolding check_headers
check_headers-HeadersFit m n r h =
    let (small, h1) = guarded (ltb n header_bytes) too_small _ r h in
    let (size, h2) =
      guarded (ltb n (header_size m) || ltb (header_size m) header_bytes) header_size_bounds _ r
        h1 in
    let (security, h3) =
      guarded (ltb n (security_offset m) || ltb (n - security_offset m) security_bytes)
        security_bounds _ r h2 in
    let (options, h4) =
      guarded (ltb (header_size m) (24 + header_count m * opt_header_bytes)) opt_header_bounds _ r
        h3 in
    let image =
      checked
        (image_size m (security_offset m) == 0
          || ltb max_image_size (image_size m (security_offset m)))
        bad_image_size r h4 in
    (
      ground (arith, size),
      ground (arith, size),
      ground (arith, security),
      ground (arith, options),
      ground (arith, image),
      ground (arith, image),
    )

-- A load that succeeds has read its headers inside the file, of `n` bytes.
pub xex2_load_image-HeadersFit :
    (env : Env) (m : Bytes) (n : ℕ) (image : Image)
    → xex2_load_image env m n ≡ ok image
    → HeadersFit m n
unfolding xex2_load_image
xex2_load_image-HeadersFit env m n image h =
    let (fine, e, rest) = bind-ok (check_headers m n) _ image h in
    check_headers-HeadersFit m n fine e

map_image-InImage :
    (env : Env) (m b : Bytes) (image : Image)
    → map_image env m b ≡ ok image
    → (image.size ≡ image_size m (security_offset m))
      × (image.base
          ≡ field_or env m
              (get_opt_header_ptr m key_image_base)
              (load_address m (security_offset m)))
      × All (InImage env.name_of b image.size image.base) image.sections
unfolding map_image
map_image-InImage env m b image h =
    let n = image_size m (security_offset m) in
    let base =
      field_or env m (get_opt_header_ptr m key_image_base) (load_address m (security_offset m)) in
    let (pe, e, rest) = bind-ok (check_pe env b n) _ image h in
    let mapped = map_pe_sections env.name_of b n base (section_count b) (lfanew b + nt_bytes) [] in
    let (sections, is_sections, is_image) = bind-ok (or_error section_bounds mapped) _ image rest in
    subst IsMapped (ok-injective _ image is_image) (
      refl,
      refl,
      map_pe_sections-InImage env.name_of b n base (section_count b) (lfanew b + nt_bytes) []
          sections tt (or_error-ok section_bounds mapped sections is_sections),
    )
  where
    IsMapped : Image → Type 0
    IsMapped i =
        (i.size ≡ image_size m (security_offset m))
        × (i.base
            ≡ field_or env m (get_opt_header_ptr m key_image_base)
                (load_address m (security_offset m)))
        × All (InImage env.name_of b i.size i.base) i.sections

    ok-injective : (x y : Image) → ok x ≡ ok y → x ≡ y
    ok-injective x y e = cc

be32-lt : (m : Bytes) (p : ℕ) → ((i : ℕ) → m i < 256) → be32 m p < 2 ^ 32
unfolding be32
be32-lt m p bytes =
    let a = bytes p in
    let b = bytes (p + 1) in
    let c = bytes (p + 2) in let d = bytes (p + 3) in omega (arith, a, b, c, d)

field_or-lt :
    (env : Env) (m : Bytes) (o : Option ℕ) (x : ℕ)
    → ((i : ℕ) → m i < 256)
    → x < 2 ^ 32
    → field_or env m o x < 2 ^ 32
field_or-lt env m none x bytes h = h
field_or-lt env m (some p) x bytes h = be32-lt m p bytes

-- After a load that succeeds, every address that `Image::Find` accepts is the image's base plus an
-- offset inside the image, and that offset is what it returns; for a file of bytes.
pub xex2_load_image-Reads :
    (env : Env) (m : Bytes) (n : ℕ) (image : Image)
    → ((i : ℕ) → m i < 256)
    → xex2_load_image env m n ≡ ok image
    → (address p : ℕ) → find_address image.sections address ≡ some p
    → (p < image.size) × (address ≡ image.base + p)
unfolding xex2_load_image
xex2_load_image-Reads env m n image bytes h address p at =
    let (fine, e, rest) = bind-ok (check_headers m n) _ image h in
    let (b, e', is_mapped) =
      bind-ok (load_bytes env m n (get_opt_header_ptr m key_file_format)) _ image rest in
    let (size, base, inside) = map_image-InImage env m b image is_mapped in
    let base' =
      field_or-lt env m (get_opt_header_ptr m key_image_base) (load_address m (security_offset m))
        bytes (be32-lt m _ bytes) in
    let size' = be32-lt m (security_offset m + 4) bytes in
    find_address-InImage env.name_of b image.size image.base address p image.sections
      (omega (arith, size, base, base', size')) inside at
