-- ===== src/Tests/Writing.antt =====
-- The patcher, the output files, XDBF files and the floating-point status register at concrete
-- inputs.
use xenon_recomp.Base.{
  ℕ, List, ltb, if◌then◌else◌, ◌+◌, ◌-◌, ◌/◌, ◌%◌, ◌^◌, ◌≤◌, ◌<◌, ◌≡◌, refl, inr, true, false,
  Option, none, some, [], ◌∷◌, arith,
}
use xenon_recomp.Memory.{Bytes, be16, be32, copy, fill}
use xenon_recomp.Xex.{header_size, get_opt_header_ptr}
use xenon_recomp.Tests.Loading.{byte_at, plain_env}
use xenon_recomp.Tests.Translating.{program, function}
use xenon_recomp.Patch.Delta.{
  Lzxd, delta_apply_patch, is_end, delta_loop, apply_delta, memset_in, patch_advance,
}
use xenon_recomp.Patch.Delta.Stream.{
  clear, move, edit_bytes, run_edits, delta_apply_patch-run_edits,
}
use xenon_recomp.Patch.Apply.{
  Outcome, ok, Buffer, Descriptor, check_patch, validate_headers, read_descriptor, header_target,
  patch_headers, move_headers, header_room, append_image, key_source, original_key,
}
use xenon_recomp.Patch.Apply.Data.{apply}
use xenon_recomp.Patch.Apply.Sizes.{apply-Sized}
use xenon_recomp.Patch.MemoryFile.{
  MemoryFile, memory_open, memory_read, write_all, stream, stream_length, cut, memory_write-stream,
}
use xenon_recomp.Fpscr.{
  four, round_nearest, round_toward_zero, round_up, round_down, Simde, x86, arm64, Fpscr,
  load_from_host, store_from_guest,
}
use xenon_recomp.Fpscr.Laws.{IsMxcsr, load_from_host-store_from_guest}
use xenon_recomp.Xdbf.{
  Wrapper, be64, get_resource, namespace_string_table, text_at, get_string, get_achievement,
  get_achievements,
}
use xenon_recomp.Xdbf.Laws.{
  first_with_id, get_achievement-first_with_id, first_text, get_string-first_text,
}
use xenon_recomp.Output.{
  numbered, Disk, Session, fn_pieces, recompile_all, code_range, save_current_out_data,
  save_by_name, save_as, should_write, print_all, config_text, extern_texts, mapping_texts,
  save_functions, start_file, write_file,
}
use xenon_recomp.Image.{find_section}
use xenon_recomp.Output.Files.{Written}
use xenon_recomp.Output.Functions.{recompile_all-numbered}
use xenon_recomp.Emit.Fn.{recompile_fn}

abbrev pub no_lzxd : Lzxd
no_lzxd bits src n k window = none

-- Two zeros at 4, then four bytes from 0 to 8, then the end marker.
abbrev delta_data : Bytes
delta_data = byte_at ((7, 4) ∷ (9, 2) ∷ (19, 8) ∷ (21, 4) ∷ (23, 1) ∷ [])

delta_apply_patch-run_edits_example :
    delta_apply_patch no_lzxd 0x8000 16 0 delta_data 0 36 (λ i. i)
    ≡ run_edits no_lzxd 0x8000 16 0 delta_data 0 (clear 4 2 ∷ move 0 8 4 ∷ []) (λ i. i)
unfolding be16 be32 is_end edit_bytes
delta_apply_patch-run_edits_example =
    delta_apply_patch-run_edits no_lzxd 0x8000 16 0 delta_data 0 36 (clear 4 2 ∷ move 0 8 4 ∷ [])
      (λ i. i)
      (
        omega arith,
        (refl, refl, refl, omega arith),
        (omega arith, (refl, refl, refl, refl), inr refl),
      )

-- A file with its security info at 24 and four bytes of data, and a patch of its headers.
abbrev xex_file : Buffer
xex_file = record {
  bytes = byte_at (
      (0, 0x58)
      ∷ (1, 0x45)
      ∷ (2, 0x58)
      ∷ (3, 0x32)
      ∷ (10, 1)
      ∷ (11, 0x9C)
      ∷ (19, 24)
      ∷ (31, 16)
      ∷ []);
  size = 416;
}

abbrev patch_file : Buffer
patch_file = record {
  bytes = byte_at (
      (0, 0x58)
      ∷ (1, 0x45)
      ∷ (2, 0x58)
      ∷ (3, 0x32)
      ∷ (7, 0x40)
      ∷ (11, 40)
      ∷ (19, 40)
      ∷ (23, 2)
      ∷ (26, 5)
      ∷ (27, 0xFF)
      ∷ (30, 1)
      ∷ (31, 0xAC)
      ∷ (34, 3)
      ∷ (35, 0xFF)
      ∷ (38, 2)
      ∷ (39, 8)
      ∷ (431, 12)
      ∷ (478, 1)
      ∷ (479, 0x9C)
      ∷ (510, 1)
      ∷ (511, 0x90)
      ∷ (513, 1)
      ∷ (527, 3)
      ∷ (530, 0x80)
      ∷ []);
  size = 560;
}

abbrev result_of : Outcome Buffer → Buffer
result_of (ok b) = b
result_of _ = xex_file

-- The headers patched, with a zero at 400.
abbrev patched_file : Buffer
patched_file = result_of (apply plain_env no_lzxd xex_file patch_file true)

patch_applies : apply plain_env no_lzxd xex_file patch_file true ≡ ok patched_file
unfolding apply check_patch validate_headers be32 be16 get_opt_header_ptr read_descriptor
    header_target patch_headers move_headers delta_apply_patch delta_loop is_end apply_delta
    memset_in header_room patch_advance append_image fill copy key_source original_key
patch_applies = refl

apply-Sized_example :
    (d : Descriptor) × (format : ℕ) × (check_patch xex_file patch_file ≡ ok (d, format))
    × (388 ≤ d.target_headers)
    × (d.target_headers ≤ 416)
    × (d.target_headers < patched_file.size)
    × (patched_file.size ≤ d.target_headers + 2 ^ 30)
    × (416 - header_size xex_file.bytes ≤ patched_file.size - d.target_headers)
apply-Sized_example =
    apply-Sized plain_env no_lzxd xex_file patch_file true patched_file patch_applies

-- The constants of MXCSR.
abbrev mxcsr : Simde
mxcsr = record {
  round_mask = 0x6000;
  flush_zero_mask = 0x8000;
  denormals_zero_mask = 0x0040;
  nearest = 0;
  toward_zero = 0x6000;
  up = 0x4000;
  down = 0x2000;
}

mxcsr-IsMxcsr : IsMxcsr mxcsr
mxcsr-IsMxcsr = record {
  round_mask = refl;
  flush_zero_mask = refl;
  denormals_zero_mask = refl;
  nearest = refl;
  toward_zero = refl;
  up = refl;
  down = refl;
}

-- The register after a reset.
abbrev reset : Fpscr
reset = record { csr = 0x1F80; host = 0x1F80 }

load_from_host-store_from_guest_example :
    ((load_from_host (x86 mxcsr) (store_from_guest (x86 mxcsr) 2 reset)).1 ≡ 2 % 4)
    × ((load_from_host arm64 (store_from_guest arm64 2 reset)).1
        ≡ four round_nearest round_toward_zero round_down round_up (2 % 4))
load_from_host-store_from_guest_example =
    load_from_host-store_from_guest mxcsr 2 reset mxcsr-IsMxcsr (omega arith)

-- A file of four bytes with writes of three bytes each, the second of which is cut.
abbrev memory_file : MemoryFile
memory_file = record { buffer = λ i. 9; size = 4; offset = 0 }

abbrev two_writes : List (Bytes × ℕ)
two_writes = (λ i. i + 1, 3) ∷ (λ i. i + 5, 3) ∷ []

memory_write-stream_example :
    ((write_all two_writes memory_file).offset ≡ cut 4 (stream_length two_writes))
    × ((i : ℕ)
        → (write_all two_writes memory_file).buffer i
          ≡ (if ltb i (cut 4 (stream_length two_writes)) then stream two_writes i else 9))
    × ((i : ℕ)
        → (memory_read
              (record { buffer = (write_all two_writes memory_file).buffer; size = 4; offset = 0 })
              2
              (λ j. 7)).1
            i
          ≡ (if ltb i (cut 4 2) then (write_all two_writes memory_file).buffer i else 7))
unfolding memory_open
memory_write-stream_example =
    memory_write-stream true true (λ i. 9) (λ i. 7) 4 2 memory_file
      (record { buffer = (write_all two_writes memory_file).buffer; size = 4; offset = 0 })
      two_writes refl refl (omega arith, (omega arith, tt)) (omega arith)

-- A file with one resource, the English strings: number 7 is "A".
abbrev strings_file : Wrapper
strings_file = record {
  buffer =
      byte_at
        ((15, 1) ∷ (25, 3) ∷ (33, 1) ∷ (41, 19) ∷ (55, 1) ∷ (57, 7) ∷ (59, 1) ∷ (60, 65) ∷ []);
  size = 61;
  entries = 24;
  files = 42;
  content = 42;
}

get_achievement-first_with_id_example :
    get_achievement strings_file 1 5 ≡ first_with_id 5 (get_achievements strings_file 1)
get_achievement-first_with_id_example = get_achievement-first_with_id strings_file 1 5

strings_at :
    get_resource strings_file namespace_string_table 1 ≡ some (record { at = 42; size = 19 })
unfolding get_resource be16 be32 be64
strings_at = refl

get_string-first_text_example : get_string strings_file 1 7 ≡ first_text 7 ((7, 65 ∷ []) ∷ [])
unfolding be16 text_at
get_string-first_text_example =
    get_string-first_text strings_file 1 7 (record { at = 42; size = 19 }) ((7, 65 ∷ []) ∷ [])
      strings_at refl (refl, refl, refl, tt)

-- A disk on which every file opens and no hash agrees, and the start of a run.
abbrev disk : Disk
disk = record { opens = λ name. true; same = λ a b. false }

abbrev empty_session : Session
empty_session = record { out = []; file_index = 0; files = λ name. none }

abbrev session_of : Option Session → Session
session_of none = empty_session
session_of (some s) = s

abbrev finished : Session
finished = session_of (recompile_all disk program 0x1000 0x100 none (function ∷ []) empty_session)

run_finishes :
    recompile_all disk program 0x1000 0x100 none (function ∷ []) empty_session ≡ some finished
unfolding recompile_all code_range save_current_out_data save_by_name save_as should_write print_all
    config_text extern_texts mapping_texts save_functions start_file fn_pieces recompile_fn
    find_section write_file
run_finishes = refl

recompile_all-numbered_example :
    Written disk finished.files
      (numbered (0 + 0 / 256))
      (fn_pieces (recompile_fn program function).0)
recompile_all-numbered_example =
    recompile_all-numbered disk program 0x1000 0x100 none (function ∷ []) 0 function empty_session
      finished run_finishes refl
