-- ===== src/Xex/Imports.antt =====
-- The import thunks of `Xex2LoadImage` in `XenonUtils/xex.cpp`. The tables of exports, which are
-- generated, and `strlen` are parameters; the headers are read past the end of the file unnoticed.
use Prim.Native.String.{String}
use text.Mathlib.Text.{◌==◌ as str_eq}
use xenon_recomp.Base.{
  ℕ, zero, suc, ◌+◌, ◌-◌, ◌*◌, ◌/◌, ◌%◌, ◌^◌, ◌==◌, if◌then◌else◌, Option, none, some, List, [],
  ◌∷◌, get_elem?,
}
use xenon_recomp.Memory.{Bytes, be16, be32, copy, within}
use xenon_recomp.Image.{find_address}
use xenon_recomp.Symbols.{Symbol, symbol_function, insert_symbol}
use xenon_recomp.Xex.{get_opt_header_ptr}
use xenon_recomp.Xex.Load.{Env, Result, ok, ◌>>=◌, Image, xex2_load_image}

abbrev pub key_import_libraries : ℕ
key_import_libraries = 0x103FF

-- `sizeof` of `Xex2ImportHeader`, `Xex2ImportLibrary` and `Xex2ImportDescriptor`.
abbrev pub import_header_bytes : ℕ
import_header_bytes = 12

abbrev pub import_library_bytes : ℕ
import_library_bytes = 40

abbrev pub import_descriptor_bytes : ℕ
import_descriptor_bytes = 4

-- `sizeOfStringTable` and `numImports` of the header at `p`, `numberOfImports` of a library.
abbrev pub string_table_bytes : Bytes → ℕ → ℕ
string_table_bytes m p = be32 m (p + 4)

abbrev pub import_count : Bytes → ℕ → ℕ
import_count m p = be32 m (p + 8)

abbrev pub library_imports : Bytes → ℕ → ℕ
library_imports m p = be16 m (p + 38)

-- `Image` with its symbols.
pub record Program : Type 0 where
  pub image : Image
  pub symbols : List Symbol

-- The tables `XamExports` and `XboxKernelExports` by the ordinal.
pub record Exports : Type 0 where
  pub xam : ℕ → Option String
  pub kernel : ℕ → Option String

unfoldable pub names_of : Exports → String → ℕ → Option String
names_of x library ordinal =
    if str_eq library "xam.xex"
    then x.xam ordinal
    else if str_eq library "xboxkrnl.exe"
    then x.kernel ordinal
    else none

-- The bytes of `thunk`: three times `nop`, and `blr`.
abbrev pub thunk_byte : ℕ → ℕ
thunk_byte i =
    elim (get_elem? {A = ℕ}
      (0x60 ∷ 0 ∷ 0 ∷ 0 ∷ 0x60 ∷ 0 ∷ 0 ∷ 0 ∷ 0x60 ∷ 0 ∷ 0 ∷ 0 ∷ 0x4E ∷ 0x80 ∷ 0 ∷ 0x20 ∷ []) i) [
        | none ↦ 0
        | some b ↦ b
      ]

abbrev pub thunk_bytes : ℕ
thunk_bytes = 16

-- The swap of the four bytes at `q`.
unfoldable pub swap_word : ℕ → Bytes → Bytes
swap_word q m i = if within q 4 i then m (q + (3 - (i - q))) else m i

-- The body of the loop over the descriptors, for one with this first thunk.
unfoldable pub import_thunk : (ℕ → Option String) → ℕ → Program → Program
unfolding swap_word
import_thunk names first_thunk s = elim (find_address s.image.sections first_thunk) [
  | none ↦ s
  | some q ↦
      let v = be32 s.image.bytes q in
      let swapped = record s { image = record s.image { bytes = swap_word q s.image.bytes } } in
      if v / 2 ^ 24 % 2 ^ 8 == 0 then swapped else record {
        image = record s.image {
          bytes = copy thunk_byte 0 q thunk_bytes (swap_word q s.image.bytes);
        };
        symbols = elim (names (v % 2 ^ 16)) [
          | none ↦ s.symbols
          | some name ↦
              insert_symbol
                (record {
                  name = name;
                  address = first_thunk;
                  size = thunk_bytes;
                  type = symbol_function;
                })
                s.symbols
        ];
      }
]

-- The loop over the descriptors of a library, with `left` to go from `p` on.
unfoldable pub import_library : Bytes → (ℕ → Option String) → ℕ → ℕ → Program → Program
unfolding import_thunk
import_library m names zero p s = s
import_library m names (suc left) p s =
    import_library m names left (p + import_descriptor_bytes) (import_thunk names (be32 m p) s)

module _ (env : Env) (strlen : Bytes → ℕ → ℕ) (exports : Exports) where
  -- `stringTable`, with `left` strings to go from `p` on; each is padded to four bytes.
  unfoldable pub string_table : Bytes → ℕ → ℕ → List String
  string_table m zero p = []
  string_table m (suc left) p =
      env.name_of m p ∷ string_table m left (p + (strlen m p + 1 + 3) / 4 * 4)

  -- The loop over the libraries, the first of which stands at `p`.
  unfoldable pub import_libraries : Bytes → List String → ℕ → Program → Program
  unfolding import_library names_of
  import_libraries m [] p s = s
  import_libraries m (l ∷ ls) p s =
      import_libraries m ls
        (p + import_library_bytes + library_imports m p * import_descriptor_bytes)
        (import_library m (names_of exports l) (library_imports m p) (p + import_library_bytes) s)

  -- By the import header, if there is one.
  unfoldable pub apply_imports : Bytes → Option ℕ → Program → Program
  unfolding import_libraries string_table
  apply_imports m none s = s
  apply_imports m (some p) s =
      import_libraries m (string_table m (import_count m p) (p + import_header_bytes))
        (p + import_header_bytes + string_table_bytes m p) s

  -- `Xex2LoadImage` with its import thunks.
  unfoldable pub load_xex : Bytes → ℕ → Result Program
  unfolding xex2_load_image apply_imports get_opt_header_ptr
  load_xex m n = do
    image ← xex2_load_image env m n
    ok (
        apply_imports m (get_opt_header_ptr m key_import_libraries)
          (record { image = image; symbols = [] }))
