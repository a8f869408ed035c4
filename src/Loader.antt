-- ===== src/Loader.antt =====
-- `Image::ParseImage` and `ElfLoadImage` of `XenonUtils/image.cpp`. Reads past the end of the file are
-- not noticed, as in the code.
pub mod Config
use xenon_recomp.Base.{
  ℕ, zero, suc, ◌+◌, ◌*◌, ◌/◌, ◌%◌, ◌&&◌, ltb, ◌==◌, if◌then◌else◌, Option, none, some, List, [],
  sub64, u32,
}
use xenon_recomp.Memory.{Bytes, be16, be32, copy, zeros}
use xenon_recomp.Image.{Section, map_section}
use xenon_recomp.Xex.Load.{Env, Image, Result, ok, err}
use xenon_recomp.Xex.Imports.{Program, Exports, load_xex}

-- The fields of `elf32_hdr`.
abbrev pub elf_entry : Bytes → ℕ
elf_entry m = be32 m 24

abbrev pub elf_phoff : Bytes → ℕ
elf_phoff m = be32 m 28

abbrev pub elf_shoff : Bytes → ℕ
elf_shoff m = be32 m 32

abbrev pub elf_phnum : Bytes → ℕ
elf_phnum m = be16 m 44

abbrev pub elf_shnum : Bytes → ℕ
elf_shnum m = be16 m 48

abbrev pub elf_shstrndx : Bytes → ℕ
elf_shstrndx m = be16 m 50

-- `sizeof` of `elf32_phdr` and `elf32_shdr`.
abbrev pub phdr_bytes : ℕ
phdr_bytes = 32

abbrev pub shdr_bytes : ℕ
shdr_bytes = 40

-- The loop over the program headers, with `left` to go from `p` on: the address of the first that is
-- loaded, or 0.
unfoldable pub elf_base : Bytes → ℕ → ℕ → ℕ
elf_base m zero p = 0
elf_base m (suc left) p =
    let rest = elf_base m left (p + phdr_bytes) in if be32 m p == 1 then be32 m (p + 8) else rest

-- `SHF_EXECINSTR` in the flags gives the code flag.
abbrev pub elf_flags : ℕ → ℕ
elf_flags f = if f / 4 % 2 == 1 then 2 else 0

-- What the parser leaves: no image, undefined behaviour, or an image.
pub data Parsed : Type 0 where
  empty undefined : Parsed
  parsed : Program → Parsed

module _ (env : Env) where
  -- The loop over the section headers, with `left` to go from `p` on. A section without a name makes
  -- a view of a null pointer, which is undefined: none.
  unfoldable pub elf_sections : Bytes → ℕ → ℕ → ℕ → ℕ → List Section → Option (List Section)
  elf_sections m base strings zero p sections = some sections
  elf_sections m base strings (suc left) p sections =
      let mapped =
        map_section base (env.name_of m (strings + be32 m p)) (sub64 (be32 m (p + 12)) base)
          (be32 m (p + 20)) (elf_flags (be32 m (p + 8))) (be32 m (p + 16)) sections in
      let skipped = elf_sections m base strings left (p + shdr_bytes) sections in
      let rest = elf_sections m base strings left (p + shdr_bytes) mapped in
      if be32 m (p + 4) == 0 then skipped else if be32 m p == 0 then none else rest

  abbrev pub elf_image : Bytes → ℕ → ℕ → Option (List Section) → Parsed
  elf_image m n base none = undefined
  elf_image m n base (some sections) = parsed (record {
    image = record {
      bytes = copy m 0 0 n zeros;
      size = u32 n;
      base = base;
      entry_point = elf_entry m;
      sections = sections;
    };
    symbols = [];
  })

  -- `ElfLoadImage`.
  unfoldable pub elf_load_image : Bytes → ℕ → Parsed
  unfolding elf_base elf_sections
  elf_load_image m n =
      let base = elf_base m (elf_phnum m) (elf_phoff m) in
      let strings = be32 m (elf_shoff m + elf_shstrndx m * shdr_bytes + 16) in
      elf_image m n base (elf_sections m base strings (elf_shnum m) (elf_shoff m) [])

  module _ (strlen : Bytes → ℕ → ℕ) (exports : Exports) where
    abbrev pub xex_image : Result Program → Parsed
    xex_image (err e) = empty
    xex_image (ok p) = parsed p

    -- `Image::ParseImage`.
    unfoldable pub parse_image : Bytes → ℕ → Parsed
    unfolding elf_load_image load_xex
    parse_image m n =
        if ltb n 4
        then empty
        else if m 0 == 0x7F && m 1 == 0x45 && m 2 == 0x4C && m 3 == 0x46
        then elf_load_image m n
        else if m 0 == 0x58 && m 1 == 0x45 && m 2 == 0x58 && m 3 == 0x32
        then xex_image (load_xex env strlen exports m n)
        else empty
