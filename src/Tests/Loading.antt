-- ===== src/Tests/Loading.antt =====
-- The theorems on `Xex2LoadImage` at a file that loads: a header with one optional header, the file
-- format; the security info at 0x40; no compression; and an executable with one code section.
use xenon_recomp.Base.{
  ℕ, ◌+◌, ◌%◌, ◌<◌, ◌≡◌, refl, true, ◌==◌, if◌then◌else◌, none, some, List, [], ◌∷◌, arith,
}
use xenon_recomp.Memory.{Bytes, be16, be32, le16, le32, copy, from, zeros}
use xenon_recomp.Image.{find_address, find_section, map_section, insert_section}
use xenon_recomp.Xex.Load.{Env, Image, ok, xex2_load_image}
use xenon_recomp.Xex.Load.Laws.{HeadersFit, xex2_load_image-HeadersFit, xex2_load_image-Reads}

-- The byte that the list has at an offset, 0 where it has none.
abbrev pub byte_at : List (ℕ × ℕ) → ℕ → ℕ
byte_at [] i = 0
byte_at (e ∷ es) i = if e.0 == i then e.1 else byte_at es i

abbrev pub file_bytes : Bytes
file_bytes i =
    byte_at
      ((10, 2)
        ∷ (19, 64)
        ∷ (23, 1)
        ∷ (26, 3)
        ∷ (27, 255)
        ∷ (30, 1)
        ∷ (31, 224)
        ∷ (483, 8)
        ∷ (70, 1)
        ∷ (71, 96)
        ∷ (336, 130)
        ∷ (512, 77)
        ∷ (513, 90)
        ∷ (572, 64)
        ∷ (576, 80)
        ∷ (577, 69)
        ∷ (582, 1)
        ∷ (832, 32)
        ∷ (836, 64)
        ∷ (837, 1)
        ∷ (860, 32)
        ∷ [])
      i
    % 256

abbrev pub plain_env : Env
plain_env = record {
  alloc = λ n. true;
  cbc_decrypt = λ key m n. m;
  sha1 = λ m n. zeros;
  lzx_decompress = λ m n k w. none;
  name_of = λ m p. ".text";
}

abbrev loaded : Image
loaded = record {
  bytes = copy (from file_bytes 512) 0 0 352 zeros;
  size = 352;
  base = 0x82000000;
  entry_point = 0;
  sections = record { name = ".text"; base = 0x82000140; size = 32; flags = 2; data_at = 320 } ∷ [];
}

file_loads : xex2_load_image plain_env file_bytes 864 ≡ ok loaded
unfolding xex2_load_image be16 be32 le16 le32 copy map_section insert_section
file_loads = refl

file_is_bytes : (i : ℕ) → file_bytes i < 256
file_is_bytes i = omega arith

xex2_load_image-HeadersFit_example : HeadersFit file_bytes 864
xex2_load_image-HeadersFit_example =
    xex2_load_image-HeadersFit plain_env file_bytes 864 loaded file_loads

found_at : find_address loaded.sections 0x8200014A ≡ some 330
unfolding find_address find_section
found_at = refl

xex2_load_image-Reads_example : (330 < loaded.size) × (0x8200014A ≡ loaded.base + 330)
xex2_load_image-Reads_example =
    xex2_load_image-Reads plain_env file_bytes 864 loaded file_is_bytes file_loads 0x8200014A 330
      found_at
