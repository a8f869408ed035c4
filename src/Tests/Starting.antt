-- ===== src/Tests/Starting.antt =====
-- The start of the recompiler, and the search for jump tables, at concrete inputs.
use Prim.Native.String.{String}
use text.Mathlib.Text.{◌==◌ as str_eq}
use xenon_recomp.Base.{
  ℕ, ◌≡◌, refl, true, false, ◌/◌, ◌%◌, get_elem?, ◌==◌, if◌then◌else◌, Option, none, some, List, [],
  ◌∷◌,
}
use xenon_recomp.Memory.{Bytes, be16, be32, le16, le32, copy, fill, zeros}
use xenon_recomp.Image.{Section, map_section, insert_section}
use xenon_recomp.Crt.Scan.{no_helpers}
use xenon_recomp.Xex.{get_opt_header_ptr}
use xenon_recomp.Xex.Load.{xex2_load_image}
use xenon_recomp.Xex.Imports.{Exports, load_xex, apply_imports}
use xenon_recomp.Patch.Apply.{
  Buffer, ok, Outcome, check_patch, validate_headers, read_descriptor, header_target, patch_headers,
  move_headers, append_image, key_source, original_key, header_room,
}
use xenon_recomp.Patch.Delta.{delta_apply_patch, delta_loop}
use xenon_recomp.Patch.Apply.Data.{
  apply, patch_image, decrypt_base, decompress_data, clear_format, move_image, patch_blocks,
  patch_data,
}
use xenon_recomp.Loader.{parse_image}
use xenon_recomp.Loader.Config.{Settings}
use xenon_recomp.Loader.Config.Start.{
  Started, StartResult, started, unwritten, load_config, load_config-restarts, start_base,
  start_file, start_image, start_patched,
}
use xenon_recomp.Switch.{Insn}
use xenon_recomp.Switch.Collect.{absolute_switch}
use xenon_recomp.Tests.Loading.{byte_at, plain_env, file_bytes}
use xenon_recomp.Tests.Writing.{no_lzxd}

-- The file of `Loading` with its magic, and a patch that changes nothing.
abbrev base_file : Buffer
base_file = record {
  bytes = λ i.
      if i == 0
      then 0x58
      else if i == 1
      then 0x45
      else if i == 2
      then 0x58
      else if i == 3
      then 0x32
      else file_bytes i;
  size = 864;
}

abbrev same_patch : Buffer
same_patch = record {
  bytes = byte_at (
      (0, 0x58)
      ∷ (1, 0x45)
      ∷ (2, 0x58)
      ∷ (3, 0x32)
      ∷ (7, 0x40)
      ∷ (11, 40)
      ∷ (19, 40)
      ∷ (23, 2)
      ∷ (26, 5)
      ∷ (27, 0xFF)
      ∷ (30, 1)
      ∷ (31, 0xAC)
      ∷ (34, 3)
      ∷ (35, 0xFF)
      ∷ (38, 2)
      ∷ (39, 8)
      ∷ (478, 2)
      ∷ (527, 3)
      ∷ (530, 0x80)
      ∷ []);
  size = 560;
}

abbrev settings : Settings
settings = record {
  file_path = "base";
  patch_file_path = "patch";
  patched_file_path = "patched";
  out_directory_path = "out";
  skip_lr = false;
  skip_msr = false;
  ctr_as_local = false;
  xer_as_local = false;
  reserved_as_local = false;
  cr_as_local = false;
  non_argument_as_local = false;
  non_volatile_as_local = false;
  helpers = no_helpers;
  long_jmp_address = 0;
  set_jmp_address = 0;
  functions = [];
  invalid_instructions = [];
  switch_tables = [];
  hooks = [];
}

abbrev no_exports : Exports
no_exports = record { xam = λ k. none; kernel = λ k. none }

abbrev first_files : String → Option Buffer
first_files path =
    if str_eq path "base"
    then some base_file
    else if str_eq path "patch"
    then some same_patch
    else none

abbrev buffer_of : Outcome Buffer → Buffer
buffer_of (ok b) = b
buffer_of _ = base_file

abbrev new_file : Buffer
new_file = buffer_of (apply plain_env no_lzxd base_file same_patch false)

patched_there : apply plain_env no_lzxd base_file same_patch false ≡ ok new_file
unfolding apply check_patch validate_headers be32 get_opt_header_ptr be16 read_descriptor
    header_target patch_headers move_headers delta_apply_patch delta_loop append_image copy fill
    key_source original_key patch_image decrypt_base decompress_data clear_format move_image
    patch_blocks patch_data header_room
patched_there = refl

abbrev later_files : String → Option Buffer
later_files path = if str_eq path "patched" then some new_file else none

abbrev first_result : StartResult
first_result =
    load_config plain_env no_lzxd (λ m p. 0) no_exports first_files (λ path. true) settings

abbrev no_start : Started
no_start = record {
  settings = settings;
  program = record {
    image = record { bytes = zeros; size = 0; base = 0; entry_point = 0; sections = [] };
    symbols = [];
  };
  written = none;
}

abbrev start_of : StartResult → Started
start_of (started r) = r
start_of _ = no_start

abbrev first_start : Started
first_start = start_of first_result

first_starts : first_result ≡ started first_start
unfolding apply check_patch validate_headers be32 get_opt_header_ptr be16 read_descriptor
    header_target patch_headers move_headers delta_apply_patch delta_loop append_image copy fill
    key_source original_key patch_image decrypt_base decompress_data clear_format move_image
    patch_blocks patch_data header_room load_config start_base start_file start_image start_patched
    parse_image load_xex xex2_load_image le16 le32 map_section insert_section apply_imports
first_starts = refl

first_writes : first_start.written ≡ some new_file
unfolding apply check_patch validate_headers be32 get_opt_header_ptr be16 read_descriptor
    header_target patch_headers move_headers delta_apply_patch delta_loop append_image copy fill
    key_source original_key patch_image decrypt_base decompress_data clear_format move_image
    patch_blocks patch_data header_room load_config start_base start_file start_image start_patched
    parse_image load_xex xex2_load_image le16 le32 map_section insert_section apply_imports
first_writes = refl

load_config-restarts_example :
    load_config plain_env no_lzxd (λ m p. 0) no_exports later_files (λ path. false) settings
    ≡ started (unwritten first_start)
load_config-restarts_example =
    load_config-restarts plain_env no_lzxd (λ m p. 0) no_exports first_files later_files
      (λ path. true) (λ path. false) settings first_start new_file first_writes first_starts refl

-- A code section of eight words with the pattern of an absolute table at its third.
abbrev table_section : Section
table_section = record { name = ".text"; base = 0x1000; size = 32; flags = 2; data_at = 0 }

abbrev decode : ℕ → ℕ → Insn
decode word address = record { id = some word; has_second = true; operand = λ n. n }

abbrev nth : List ℕ → ℕ → ℕ
nth xs i = elim (get_elem? xs i) [ none ↦ 0 | some x ↦ x ]

-- Each word is the id of its instruction: a comparison, a range branch and the pattern.
abbrev pattern_bytes : Bytes
pattern_bytes p =
    let id = nth (569 ∷ 605 ∷ absolute_switch) (p / 4) in
    if p % 4 == 2 then id / 256 else if p % 4 == 3 then id % 256 else 0
