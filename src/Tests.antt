-- ===== src/Tests.antt =====
-- The theorems at concrete inputs.
pub mod Analysing
pub mod Loading
pub mod Starting
pub mod Translating
pub mod Writing
use xenon_recomp.Base.{
  ℕ, ◌+◌, ◌-◌, ◌*◌, ◌/◌, ◌%◌, ◌≤◌, ◌<◌, ◌≡◌, refl, ◌↔◌, ◌⊎◌, Bool, true, false, ◌&&◌, ltb, ◌==◌,
  if◌then◌else◌, none, some, List, [], ◌∷◌, All, length, arith, min, u32_mod,
}
use xenon_recomp.Memory.{Bytes, be32, zeros}
use xenon_recomp.Function.{
  Block, Function, block, start, analyze, done, max_block_count, search_block,
}
use xenon_recomp.Function.Cover.{Covered}
use xenon_recomp.Function.Invariant.{IsAt}
use xenon_recomp.Function.Total.{begin, Reach-IsAt, analyze_total}
use xenon_recomp.Function.Search.{search_block-Finds, Finds as BlockFinds}
use xenon_recomp.Image.{Section, find_section, find_address}
use xenon_recomp.Image.Lookup.{Finds, find_section-Finds}
use xenon_recomp.Symbols.{Symbol, symbol_function, find_symbol, insert_symbol}
use xenon_recomp.Symbols.Lookup.{last_at, find_symbol-last_at, find_symbol-insert_symbol}
use xenon_recomp.Crt.{
  gpr_load, detect_register_run, detect_vector_pair_run, is_lvx, ra, rb, is_addi,
}
use xenon_recomp.Crt.Scan.{detect_crt_helpers}
use xenon_recomp.Crt.Runs.{Continues, Pairs, detect_register_run_iff, detect_vector_pair_run_iff}
use xenon_recomp.Crt.First.{IsFirst, detect_crt_helpers-IsFirst}
use xenon_recomp.Switch.{Insn, SwitchTable, mask_at, scan_section, scan_table}
use xenon_recomp.Switch.Read.{read_table, read_immediate}
use xenon_recomp.Switch.Search.{positions, scan_section-positions}
use xenon_recomp.Switch.Scan.{Found, NoLimit, scan_table-Found}
use xenon_recomp.Switch.Table.{ReadsByType, read_table-Reads}
use xenon_recomp.Patch.{expand_base}
use xenon_recomp.Patch.InPlace.{expand_base-expand_blocks}
use xenon_recomp.Xex.Basic.{BasicBlock, sum_blocks, expand_blocks, image_byte, expand_blocks-image}

-- Words as they lie in memory: `beq` to the third word, and two returns.
abbrev branch_code : ℕ → ℕ
branch_code i = if i == 0 then 0x08008241 else 0x2000804E

abbrev all_decode : ℕ → ℕ → Bool
all_decode word address = true

analyze_total_example :
    (fn : Function) × (analyze branch_code all_decode
        ((max_block_count + 3) * (12 + 11))
        12
        0x82000000
      ≡ done fn)
    × (fn.base ≡ 0x82000000)
    × ((fn.size ≤ (12 + 3) / 4 * 4) × ((x : ℕ) → x < fn.size → Covered x fn.blocks)
        ⊎ (branch_code 1 ≡ 0x04000048) × (fn.size ≡ 8))
analyze_total_example =
    analyze_total branch_code all_decode 0x82000000 12 (omega arith) (omega arith)
      ((max_block_count + 3) * (12 + 11)) (omega arith)

Reach-IsAt_example : IsAt start × All (λ i. i < length start.blocks) start.stack
Reach-IsAt_example =
    Reach-IsAt branch_code all_decode 0x82000000 12 (omega arith) (omega arith) begin

abbrev two_blocks : List Block
two_blocks = block 0 8 ∷ block 8 0 ∷ []

search_block-Finds_example :
    BlockFinds 0x82000000 0x82000008 two_blocks 0 (search_block 0x82000000 two_blocks 0x82000008)
search_block-Finds_example =
    search_block-Finds 0x82000000 0x82000008 two_blocks (omega arith, (omega arith, tt))

abbrev text_section : Section
text_section = record { name = ".text"; base = 0x1000; size = 64; flags = 2; data_at = 16 }

abbrev data_section : Section
data_section = record { name = ".data"; base = 0x2000; size = 32; flags = 0; data_at = 80 }

find_section-Finds_example :
    Finds 0x1010
      (text_section ∷ data_section ∷ [])
      (find_section (text_section ∷ data_section ∷ []) 0x1010)
find_section-Finds_example =
    find_section-Finds 0x1010 (text_section ∷ data_section ∷ [])
      (omega arith, omega arith, omega arith)

abbrev symbol_at : ℕ → ℕ → Symbol
symbol_at a n = record { name = "f"; address = a; size = n; type = symbol_function }

find_symbol-last_at_example :
    find_symbol 16 (symbol_at 8 8 ∷ symbol_at 16 4 ∷ [])
    ≡ last_at 16 none (symbol_at 8 8 ∷ symbol_at 16 4 ∷ [])
find_symbol-last_at_example =
    find_symbol-last_at 16 (symbol_at 8 8 ∷ symbol_at 16 4 ∷ []) ((omega arith, tt), (tt, tt))
      ((omega arith, omega arith), ((omega arith, omega arith), tt)) (omega arith)

find_symbol-insert_symbol_example :
    find_symbol 16 (insert_symbol (symbol_at 16 12) (symbol_at 8 8 ∷ []))
    ≡ (if 16 == 16 && ltb 0 12 then some (symbol_at 16 12) else find_symbol 16 (symbol_at 8 8 ∷ []))
find_symbol-insert_symbol_example =
    find_symbol-insert_symbol 16 (symbol_at 16 12) (symbol_at 8 8 ∷ []) (tt, tt)
      ((omega arith, omega arith), tt) (omega arith, omega arith) (omega arith)

-- `lwz r14, 0(r1)` and `lwz r15, 4(r1)`.
abbrev load_words : ℕ → ℕ
load_words i = if i == 0 then 0x81C10000 else 0x81E10004

detect_register_run_iff_example :
    (detect_register_run load_words 2 0 14 2 4 (gpr_load false 1) ≡ true) ↔ (
      (0 + 2 ≤ 2)
      × ((gpr_load false 1).matches (load_words 0) 14 ≡ true)
      × ((j : ℕ)
          → 1 ≤ j
          → j < 2
          → Continues load_words
              (gpr_load false 1)
              0
              14
              4
              ((gpr_load false 1).displacement (load_words 0))
              j))
detect_register_run_iff_example =
    detect_register_run_iff load_words 2 0 14 2 4 (gpr_load false 1) (omega arith)

-- `li r11, -16` and `lvx v14, r11, r12`, twice, the second time for v15.
abbrev vector_words : ℕ → ℕ
vector_words i = if i % 2 == 0 then 0x3960FFF0 else if i == 1 then 0x7DCB60CE else 0x7DEB60CE

detect_vector_pair_run_iff_example :
    (detect_vector_pair_run vector_words 4 1 14 2 is_lvx ≡ true) ↔ (
      (1 ≤ 1)
      × (1 - 1 + 2 * 2 ≤ 4)
      × (is_lvx (vector_words 1) 14 ≡ true)
      × (is_addi (vector_words (1 - 1)) ≡ true)
      × ((j : ℕ)
          → 1 ≤ j
          → j < 2
          → Pairs vector_words is_lvx 1 14 (ra (vector_words 1)) (rb (vector_words 1)) j))
detect_vector_pair_run_iff_example =
    detect_vector_pair_run_iff vector_words 4 1 14 2 is_lvx (omega arith)

detect_crt_helpers-IsFirst_example :
    IsFirst
      (detect_crt_helpers (λ i. i % 256) (text_section ∷ data_section ∷ []))
      (λ i. i % 256)
      (text_section ∷ data_section ∷ [])
detect_crt_helpers-IsFirst_example =
    detect_crt_helpers-IsFirst (λ i. i % 256) (text_section ∷ data_section ∷ [])

-- `lis` at every other word.
abbrev lis_words : ℕ → Insn
lis_words i = record {
  id = some (if i % 2 == 0 then 584 else 580);
  has_second = true;
  operand = λ n. n;
}

scan_section-positions_example :
    scan_section lis_words (584 ∷ 580 ∷ []) 5 6 0
    ≡ some (positions (mask_at lis_words 5 (584 ∷ 580 ∷ [])) (5 - 0) 0)
scan_section-positions_example =
    scan_section-positions lis_words (584 ∷ 580 ∷ []) 5 6 0 (omega arith) (omega arith)

-- Backwards from the match: `bgt cr6` one word before it, `cmplwi cr6, r6, 2` three words before.
abbrev switch_words : ℕ → Insn
switch_words i = record {
  id = some (if i == 1 then 605 else if i == 3 then 569 else 584);
  has_second = true;
  operand = λ n. if n == 2 then 2 else 6;
}

abbrev empty_table : SwitchTable
empty_table = record { labels = []; base = 0; default_label = 0; r = 0; type = 0 }

fields_decoded : (i : ℕ) → (switch_words i).operand 0 < u32_mod - 1
fields_decoded i = omega arith

scan_table-Found_example :
    Found switch_words 0x1000 empty_table
      (min 32 20)
      (scan_table switch_words 0x1000 empty_table 20)
    ⊎ (NoLimit switch_words 0x1000 empty_table (min 32 20)
        × ((scan_table switch_words 0x1000 empty_table 20).base ≡ 0)
        × ((scan_table switch_words 0x1000 empty_table 20).labels ≡ []))
scan_table-Found_example = scan_table-Found switch_words 0x1000 empty_table fields_decoded 20

-- `lis` of 0 and `addi` of 0x1020: the table lies 32 bytes into the code section.
abbrev table_words : ℕ → ℕ → Insn
table_words word address = record {
  id = some 580;
  has_second = true;
  operand = λ n. if n == 2 then 0x1020 else 0;
}

abbrev two_labels : SwitchTable
two_labels = record { labels = 0 ∷ 0 ∷ []; base = 0x1000; default_label = 0; r = 3; type = 0 }

abbrev filled_labels : SwitchTable
filled_labels = record {
  labels = 0x30313233 ∷ 0x34353637 ∷ [];
  base = 0x1000;
  default_label = 0;
  r = 3;
  type = 0;
}

read_table-Reads_example :
    (0 < length two_labels.labels)
    × (p_offset : ℕ) × (read_immediate table_words (λ i. i % 256) (text_section ∷ []) 0x1000 0x1004
        ≡ some p_offset)
    × ReadsByType table_words
        (λ i. i % 256)
        (text_section ∷ [])
        p_offset
        two_labels
        filled_labels.labels
unfolding read_table find_section find_address be32
read_table-Reads_example =
    read_table-Reads table_words (λ i. i % 256) (text_section ∷ []) two_labels filled_labels refl

abbrev two_basic_blocks : List BasicBlock
two_basic_blocks =
    record { data_size = 2; zero_size = 1 } ∷ record { data_size = 1; zero_size = 2 } ∷ []

expand_blocks-image_example :
    ((i : ℕ)
      → i < (sum_blocks two_basic_blocks (0, 0)).0
      → expand_blocks (λ k. k + 7) two_basic_blocks 0 0 zeros i
        ≡ image_byte (λ k. k + 7) two_basic_blocks 0 i)
    × ((i : ℕ)
        → (sum_blocks two_basic_blocks (0, 0)).0 ≤ i
        → expand_blocks (λ k. k + 7) two_basic_blocks 0 0 zeros i ≡ 0)
expand_blocks-image_example =
    expand_blocks-image (λ k. k + 7) two_basic_blocks 0 zeros (omega arith, (omega arith, tt))
      (omega arith)

abbrev counting_bytes : Bytes
counting_bytes i = i

expand_base-expand_blocks_example :
    (r : Bytes) × (expand_base two_basic_blocks 4 16 counting_bytes ≡ some r)
    × ((i : ℕ) → i < 6 → r (4 + i) ≡ expand_blocks counting_bytes two_basic_blocks 4 0 zeros i)
    × ((i : ℕ) → (i < 4) ⊎ (4 + 6 ≤ i) → r i ≡ counting_bytes i)
expand_base-expand_blocks_example =
    expand_base-expand_blocks two_basic_blocks 4 16 counting_bytes (omega arith) (omega arith)
      (omega arith)
