-- ===== src/Xex/Load.antt =====
-- `Xex2LoadImage` of `XenonUtils/xex.cpp` up to the import thunks. A null `data` pointer is not
-- modelled; a buffer from `make_unique` is zero.
pub mod Laws
use Prim.Native.String.{String}
use xenon_recomp.Base.{
  ℕ, zero, suc, ◌+◌, ◌-◌, ◌*◌, ◌/◌, ◌^◌, Bool, true, not, ◌&&◌, ◌||◌, ltb, leb, ◌==◌, if◌then◌else◌,
  Option, none, some, List, [], u32,
}
use xenon_recomp.Memory.{Bytes, be16, be32, le32, copy, from, zeros}
use xenon_recomp.Image.{Section}
use xenon_recomp.Xex.{
  header_bytes, opt_header_bytes, security_bytes, format_bytes, basic_block_bytes,
  compressed_block_bytes, normal_info_bytes, key_file_format, key_entry_point, key_image_base,
  header_size, security_offset, header_count, image_size, load_address, aes_key, info_size,
  encryption_type, compression_type, retail_key, get_opt_header_ptr,
}
use xenon_recomp.Xex.Basic.{read_blocks, sum_blocks, expand_blocks}
use xenon_recomp.Xex.Pe.{
  dos_bytes, nt_bytes, section_bytes, dos_magic, lfanew, section_count, map_pe_sections,
}

-- The error returns, and a read past the end of the file's data, which the code does not notice.
pub data XexError : Type 0 where
  too_small header_size_bounds security_bounds opt_header_bounds bad_image_size : XexError
  delta_compressed no_memory unknown_encryption image_truncated : XexError
  bad_basic_info basic_blocks_bounds bad_blocks_size data_truncated : XexError
  lzx_info_bounds block_bounds hash_mismatch lzx_failed overrun : XexError
  no_format bad_pe_header pe_bounds bad_pe_signature bad_section_count : XexError
  section_headers_bounds section_bounds : XexError

pub data Result {ℓ} (A : Type ℓ) : Type ℓ where
  err : XexError → Result A
  ok : A → Result A

infixl 1 ◌>>=◌ ◌>>◌
abbrev pub ◌>>=◌ {ℓ κ} : {A : Type ℓ} {B : Type κ} → Result A → (A → Result B) → Result B
err e >>= f = err e
ok a >>= f = f a

abbrev pub ◌>>◌ {ℓ κ} : {A : Type ℓ} {B : Type κ} → Result A → Result B → Result B
m >> n = m >>= λ x. n

-- An early return with an error.
abbrev pub fail_if : Bool → XexError → Result Bool
fail_if b e = if b then err e else ok true

abbrev pub or_error {ℓ} : {A : Type ℓ} → XexError → Option A → Result A
or_error e none = err e
or_error e (some a) = ok a

-- The code outside the repository that the loader calls: whether an allocation succeeds, AES-CBC
-- decryption of a number of bytes by a key, SHA-1, and LZX decompression of a number of bytes to
-- a number of bytes with a window size.
pub record Env : Type 0 where
  pub alloc : ℕ → Bool
  pub cbc_decrypt : Bytes → Bytes → ℕ → Bytes
  pub sha1 : Bytes → ℕ → Bytes
  pub lzx_decompress : Bytes → ℕ → ℕ → ℕ → Option Bytes
  pub name_of : Bytes → ℕ → String

-- The fields of `Image` that the loader sets.
pub record Image : Type 0 where
  pub bytes : Bytes
  pub size : ℕ
  pub base : ℕ
  pub entry_point : ℕ
  pub sections : List Section

abbrev pub max_image_size : ℕ
max_image_size = 2 ^ 30

-- The guards on the headers. `headerSize` and `dataSize` are unsigned.
unfoldable pub check_headers : Bytes → ℕ → Result Bool
check_headers m n = do
  fail_if (ltb n header_bytes) too_small
  fail_if (ltb n (header_size m) || ltb (header_size m) header_bytes) header_size_bounds
  fail_if (ltb n (security_offset m) || ltb (n - security_offset m) security_bytes) security_bounds
  fail_if (ltb (header_size m) (24 + header_count m * opt_header_bytes)) opt_header_bounds
  fail_if
      (image_size m (security_offset m) == 0
        || ltb max_image_size (image_size m (security_offset m)))
      bad_image_size

-- `memcmp` of digests: whether `n` bytes agree.
abbrev pub same_bytes : Bytes → Bytes → ℕ → Bool
same_bytes a b zero = true
same_bytes a b (suc n) = a n == b n && same_bytes a b n

module _ (env : Env) where
  -- `srcData`: the data behind the headers, decrypted where the format says so.
  unfoldable pub source_data : Bytes → ℕ → ℕ → Result Bytes
  source_data m n format =
      let exe_size = n - header_size m in
      let key = env.cbc_decrypt retail_key (aes_key m (security_offset m)) 16 in
      if encryption_type m format == 1
      then if env.alloc exe_size
        then ok (env.cbc_decrypt key (from m (header_size m)) exe_size)
        else err no_memory
      else if encryption_type m format == 0
      then ok (from m (header_size m))
      else err unknown_encryption

  -- No compression.
  unfoldable pub load_plain : Bytes → ℕ → ℕ → Result Bytes
  load_plain src exe_size image_n = do
    fail_if (ltb exe_size image_n) image_truncated
    fail_if (not (env.alloc image_n)) no_memory
    ok (copy src 0 0 image_n zeros)

  -- Basic compression.
  unfoldable pub load_basic : Bytes → ℕ → ℕ → Bytes → ℕ → Result Bytes
  unfolding read_blocks sum_blocks expand_blocks
  load_basic m n format src exe_size =
      let count = info_size m format / basic_block_bytes - 1 in
      let blocks = read_blocks m (format + format_bytes) count in
      let sums = sum_blocks blocks (0, 0) in
      do
        fail_if (ltb (info_size m format) (basic_block_bytes * 2)) bad_basic_info
        fail_if (ltb n (format + format_bytes + count * basic_block_bytes)) basic_blocks_bounds
        fail_if (sums.0 == 0 || ltb max_image_size sums.0) bad_blocks_size
        fail_if (ltb exe_size sums.1) data_truncated
        fail_if (not (env.alloc sums.0)) no_memory
        ok (expand_blocks src blocks 0 0 zeros)

  -- The chunks of a compressed block: a halfword size and the data, up to a size of zero. Out of
  -- fuel is a read past the end, since each chunk takes at least three bytes.
  unfoldable pub collect_chunks : ℕ → Bytes → ℕ → ℕ → Bytes → Result (ℕ × Bytes)
  collect_chunks zero src p d dest = err overrun
  collect_chunks (suc fuel) src p d dest =
      let chunk_size = be16 src p in
      let rest =
        collect_chunks fuel src (p + 2 + chunk_size) (d + chunk_size)
          (copy src (p + 2) d chunk_size dest) in
      if chunk_size == 0 then ok (d, dest) else rest

  -- The loop over the compressed blocks: the header of the next block stands at `b` in `info`, its
  -- data at `p` in the source.
  unfoldable pub collect_blocks : ℕ → Bytes → ℕ → Bytes → ℕ → ℕ → ℕ → Bytes → Result (ℕ × Bytes)
  unfolding collect_chunks
  collect_blocks zero src exe_n info b p d dest = err overrun
  collect_blocks (suc fuel) src exe_n info b p d dest =
      let block_size = be32 info b in
      let next = do
        fail_if (ltb block_size compressed_block_bytes || ltb exe_n (p + block_size)) block_bounds
        fail_if (not (same_bytes (env.sha1 (from src p) block_size) (from info (b + 4)) 20))
            hash_mismatch
        chunks ← collect_chunks (exe_n + 1) src (p + 24) d dest
        collect_blocks fuel src exe_n src p (p + block_size) chunks.0 chunks.1
      in if block_size == 0 then ok (d, dest) else next

  -- LZX compression. `exeLength` is a `uint32_t`.
  unfoldable pub load_normal : Bytes → ℕ → ℕ → Bytes → ℕ → ℕ → Result Bytes
  unfolding collect_blocks
  load_normal m n format src exe_size image_n = do
    fail_if (not (env.alloc image_n)) no_memory
    fail_if (ltb n (format + format_bytes + normal_info_bytes)) lzx_info_bounds
    fail_if (not (env.alloc (u32 exe_size))) no_memory
    chunks ←
        collect_blocks (u32 exe_size + 1) src (u32 exe_size) m (format + format_bytes + 4) 0 0 zeros
    or_error lzx_failed
        (env.lzx_decompress chunks.1 chunks.0 image_n (be32 m (format + format_bytes)))

  -- The image's bytes by the format header, `none` where it is missing.
  unfoldable pub load_bytes : Bytes → ℕ → Option ℕ → Result Bytes
  unfolding source_data load_plain load_basic load_normal
  load_bytes m n none = err no_format
  load_bytes m n (some format) =
      let image_n = image_size m (security_offset m) in
      let exe_size = n - header_size m in
      do
        fail_if (ltb 2 (compression_type m format)) delta_compressed
        src ← source_data m n format
        if compression_type m format == 0
            then load_plain src exe_size image_n
            else if compression_type m format == 1
            then load_basic m n format src exe_size
            else load_normal m n format src exe_size image_n

  -- The guards on the executable's headers.
  unfoldable pub check_pe : Bytes → ℕ → Result Bool
  check_pe b n = do
    fail_if (ltb n (dos_bytes + nt_bytes) || not (dos_magic b == 0x5A4D)) bad_pe_header
    fail_if (leb (n - nt_bytes) (lfanew b)) pe_bounds
    fail_if (not (le32 b (lfanew b) == 0x4550)) bad_pe_signature
    fail_if (section_count b == 0 || ltb 96 (section_count b)) bad_section_count
    fail_if (ltb n (lfanew b + nt_bytes + section_count b * section_bytes)) section_headers_bounds

  abbrev pub field_or : Bytes → Option ℕ → ℕ → ℕ
  field_or m none x = x
  field_or m (some p) x = be32 m p

  -- The mapped image.
  unfoldable pub map_image : Bytes → Bytes → Result Image
  unfolding check_pe map_pe_sections
  map_image m b =
      let n = image_size m (security_offset m) in
      let base =
        field_or m (get_opt_header_ptr m key_image_base) (load_address m (security_offset m)) in
      do
        check_pe b n
        sections ←
            or_error section_bounds
              (map_pe_sections env.name_of b n base (section_count b) (lfanew b + nt_bytes) [])
        ok (record {
          bytes = b;
          size = n;
          base = base;
          entry_point = field_or m (get_opt_header_ptr m key_entry_point) 0;
          sections = sections;
        })

  -- `Xex2LoadImage` on a file of `n` bytes.
  unfoldable pub xex2_load_image : Bytes → ℕ → Result Image
  unfolding check_headers load_bytes map_image get_opt_header_ptr
  xex2_load_image m n = do
    check_headers m n
    b ← load_bytes m n (get_opt_header_ptr m key_file_format)
    map_image m b
