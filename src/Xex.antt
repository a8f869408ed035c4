-- ===== src/Xex.antt =====
-- The headers of `XenonUtils/xex.h`, as big-endian fields of the file, and `getOptHeaderPtr`.
pub mod Basic
pub mod Pe
pub mod Load
pub mod Imports
use xenon_recomp.Base.{
  ℕ, zero, suc, ◌+◌, ◌*◌, ◌%◌, ◌||◌, ◌==◌, if◌then◌else◌, Option, none, some, [], ◌∷◌, get_elem?,
}
use xenon_recomp.Memory.{Bytes, be16, be32}

-- `sizeof` of `Xex2Header`, `Xex2OptHeader`, `Xex2SecurityInfo`, `Xex2OptFileFormatInfo`,
-- `Xex2FileBasicCompressionBlock`, `Xex2CompressedBlockInfo` and `Xex2FileNormalCompressionInfo`.
abbrev pub header_bytes : ℕ
header_bytes = 24

abbrev pub opt_header_bytes : ℕ
opt_header_bytes = 8

abbrev pub security_bytes : ℕ
security_bytes = 388

abbrev pub format_bytes : ℕ
format_bytes = 8

abbrev pub basic_block_bytes : ℕ
basic_block_bytes = 8

abbrev pub compressed_block_bytes : ℕ
compressed_block_bytes = 24

abbrev pub normal_info_bytes : ℕ
normal_info_bytes = 28

-- The header keys that the loader asks for.
abbrev pub key_file_format : ℕ
key_file_format = 0x3FF

abbrev pub key_entry_point : ℕ
key_entry_point = 0x10100

abbrev pub key_image_base : ℕ
key_image_base = 0x10201

-- `Xex2RetailKey`.
abbrev pub retail_key : Bytes
retail_key i =
    elim (get_elem? {A = ℕ}
      (0x20 ∷ 0xB1 ∷ 0x85 ∷ 0xA5 ∷ 0x9D ∷ 0x28 ∷ 0xFD ∷ 0xC3 ∷ 0x40 ∷ 0x58 ∷ 0x3F ∷ 0xBB ∷ 0x08
        ∷ 0x96 ∷ 0xBF ∷ 0x91 ∷ [])
      i) [ none ↦ 0 | some b ↦ b ]

-- `Xex2Header`.
abbrev pub header_size : Bytes → ℕ
header_size m = be32 m 8

abbrev pub security_offset : Bytes → ℕ
security_offset m = be32 m 16

abbrev pub header_count : Bytes → ℕ
header_count m = be32 m 20

-- `Xex2SecurityInfo` at `p`.
abbrev pub image_size : Bytes → ℕ → ℕ
image_size m p = be32 m (p + 4)

abbrev pub load_address : Bytes → ℕ → ℕ
load_address m p = be32 m (p + 272)

abbrev pub aes_key : Bytes → ℕ → Bytes
aes_key m p i = m (p + 336 + i)

-- `Xex2OptFileFormatInfo` at `p`.
abbrev pub info_size : Bytes → ℕ → ℕ
info_size m p = be32 m p

abbrev pub encryption_type : Bytes → ℕ → ℕ
encryption_type m p = be16 m (p + 4)

abbrev pub compression_type : Bytes → ℕ → ℕ
compression_type m p = be16 m (p + 6)

-- The loop of `getOptHeaderPtr` from the optional header `i` on, with `left` headers to go.
unfoldable pub opt_header_loop : Bytes → ℕ → ℕ → ℕ → Option ℕ
opt_header_loop m key zero i = none
opt_header_loop m key (suc left) i =
    let p = header_bytes + i * opt_header_bytes in
    let rest = opt_header_loop m key left (i + 1) in
    if be32 m p == key
    then (if key % 256 == 0 || key % 256 == 1 then some (p + 4) else some (be32 m (p + 4)))
    else rest

-- `getOptHeaderPtr`: an offset into the file, `none` for the null pointer.
unfoldable pub get_opt_header_ptr : Bytes → ℕ → Option ℕ
unfolding opt_header_loop
get_opt_header_ptr m key = opt_header_loop m key (header_count m) 0
