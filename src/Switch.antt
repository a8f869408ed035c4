-- ===== src/Switch.antt =====
-- `XenonAnalyse/main.cpp`: the search for jump tables. The disassembler is a parameter: what it
-- makes of a word at an address. Code words are read by their index in a section.
pub mod Search
pub mod Scan
pub mod Read
pub mod Table
pub mod Collect
use xenon_recomp.Base.{
  ℕ, zero, suc, ◌+◌, ◌-◌, min, Bool, true, false, not, ◌&&◌, ◌||◌, ltb, ◌==◌, if◌then◌else◌, Option,
  none, some, List, [], ◌∷◌, ◌>>=◌, u32, u32_mod,
}

-- The fields of `ppc_insn` that are read: the id of the opcode, if there is one, whether the opcode
-- has a second operand, and the operands.
pub record Insn : Type 0 where
  pub id : Option ℕ
  pub has_second : Bool
  pub operand : ℕ → ℕ

pub record SwitchTable : Type 0 where
  pub labels : List ℕ
  pub base : ℕ
  pub default_label : ℕ
  pub r : ℕ
  pub type : ℕ

abbrev pub switch_absolute : ℕ
switch_absolute = 0

abbrev pub switch_computed : ℕ
switch_computed = 1

abbrev pub switch_byteoffset : ℕ
switch_byteoffset = 2

abbrev pub switch_shortoffset : ℕ
switch_shortoffset = 3

-- Whether the instruction has an opcode, and the one with this id.
abbrev pub has_id : Insn → ℕ → Bool
has_id insn n = elim insn.id [ none ↦ false | some m ↦ m == n ]

abbrev pub has_opcode : Insn → Bool
has_opcode insn = elim insn.id [ none ↦ false | some m ↦ true ]

-- The inner loop of `SearchMask`: whether the words from `i` on have the ids of the pattern.
unfoldable pub mask_at : (ℕ → Insn) → ℕ → List ℕ → ℕ → Bool
mask_at insn count [] i = true
mask_at insn count (x ∷ xs) i = ltb i count && has_id (insn i) x && mask_at insn count xs (i + 1)

-- The outer loop from `i` on, with `left` words to go; `none` is the null pointer.
unfoldable pub search_loop : (ℕ → Insn) → ℕ → List ℕ → ℕ → ℕ → Option ℕ
unfolding mask_at
search_loop insn count compare zero i = none
search_loop insn count compare (suc left) i =
    if mask_at insn count compare i then some i else search_loop insn count compare left (i + 1)

-- `SearchMask` over `count` words: the index of the first match.
unfoldable pub search_mask : (ℕ → Insn) → ℕ → List ℕ → Option ℕ
unfolding search_loop
search_mask insn count compare = search_loop insn count compare count 0

-- The loop of `scanPattern` over a section of `words` words from `pos` on: the indices at which the
-- pattern is found. `SearchMask` sees the words from `pos` on only. `none` means out of fuel.
unfoldable pub scan_section : (ℕ → Insn) → List ℕ → ℕ → ℕ → ℕ → Option (List ℕ)
unfolding search_mask
scan_section insn pattern words zero pos = none
scan_section insn pattern words (suc fuel) pos =
    if ltb pos words
    then elim (search_mask (λ k. insn (pos + k)) (words - pos) pattern) [
      | none ↦ some []
      | some k ↦ elim (scan_section insn pattern words fuel (pos + k + 1)) [
        | none ↦ none
        | some rest ↦ some ((pos + k) ∷ rest)
      ]
    ]
    else some []

abbrev pub resized : ℕ → List ℕ → List ℕ
resized zero ls = []
resized (suc n) [] = 0 ∷ resized n []
resized (suc n) (l ∷ ls) = l ∷ resized n ls

-- The conditional branches that `ScanTable` looks for: `bgt`, `bgtlr`, `ble`, `blelr`.
unfoldable pub is_range_branch : Insn → Bool
is_range_branch insn = has_id insn 605 || has_id insn 707 || has_id insn 629 || has_id insn 729

pub record ScanState : Type 0 where
  pub cr : ℕ
  pub table : SwitchTable
  pub found : Bool

-- The body of the loop of `ScanTable`. `cr` is `(uint32_t)-1` until the branch is seen.
unfoldable pub scan_step : Insn → ℕ → ScanState → ScanState
unfolding is_range_branch
scan_step insn base s =
    let t = s.table in
    if not (has_opcode insn)
    then s
    else if s.cr == u32_mod - 1 && is_range_branch insn
    then record {
      cr = insn.operand 0;
      table = record t {
        default_label = if insn.has_second then insn.operand 1 else t.default_label;
      };
      found = false;
    }
    else if not (s.cr == u32_mod - 1) && has_id insn 569 && insn.operand 0 == s.cr
    then record {
      cr = s.cr;
      table = record t {
        labels = resized (u32 (insn.operand 2 + 1)) t.labels;
        base = base;
        r = insn.operand 1;
      };
      found = true;
    }
    else s

unfoldable pub scan_loop : (ℕ → Insn) → ℕ → ℕ → ℕ → ScanState → ScanState
unfolding scan_step
scan_loop back base zero i s = s
scan_loop back base (suc left) i s =
    let s' = scan_step (back i) base s in
    let rest = scan_loop back base left (i + 1) s' in if s'.found then s' else rest

-- `ScanTable`; `back i` is the instruction `i` words before the match.
unfoldable pub scan_table : (ℕ → Insn) → ℕ → SwitchTable → ℕ → SwitchTable
unfolding scan_loop
scan_table back base table words_back =
    (scan_loop back base (min 32 words_back) 0
      (record { cr = u32_mod - 1; table = table; found = false })).table
