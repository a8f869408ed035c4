-- ===== src/Switch/Collect.antt =====
-- `main` of `XenonAnalyse/main.cpp`: the tables that the four patterns find in all code sections, and
-- the program around them.
use xenon_recomp.Base.{
  ℕ, zero, suc, ◌+◌, ◌-◌, ◌*◌, ◌/◌, ltb, ◌==◌, if◌then◌else◌, Option, none, some, List, [], ◌∷◌,
  ◌++◌, ◌>>=◌, add64, sub64,
}
use xenon_recomp.Memory.{Bytes, be32}
use xenon_recomp.Image.{Section}
use xenon_recomp.Crt.Scan.{is_code}
use xenon_recomp.Switch.{
  Insn, SwitchTable, switch_absolute, switch_computed, switch_byteoffset, switch_shortoffset,
  mask_at, search_mask, scan_table,
}
use xenon_recomp.Switch.Read.{read_table}
use xenon_recomp.Switch.Search.{positions}

-- `absoluteSwitch`, `computedSwitch`, `offsetSwitch` and `wordOffsetSwitch`.
abbrev pub absolute_switch : List ℕ
absolute_switch = 584 ∷ 580 ∷ 833 ∷ 920 ∷ 1376 ∷ 793 ∷ []

abbrev pub computed_switch : List ℕ
computed_switch = 584 ∷ 580 ∷ 969 ∷ 833 ∷ 584 ∷ 580 ∷ 1058 ∷ 1376 ∷ []

abbrev pub offset_switch : List ℕ
offset_switch = 584 ∷ 580 ∷ 969 ∷ 584 ∷ 580 ∷ 1058 ∷ 1376 ∷ []

abbrev pub word_offset_switch : List ℕ
word_offset_switch = 584 ∷ 580 ∷ 833 ∷ 1066 ∷ 584 ∷ 580 ∷ 1058 ∷ 1376 ∷ []

-- A table in front of the others, if there is one.
abbrev pub keep : Option SwitchTable → List SwitchTable → List SwitchTable
keep none ts = ts
keep (some t) ts = t ∷ ts

module _ (disassemble : ℕ → ℕ → Insn) (image : Bytes) (sections : List Section) where
  -- The instruction at a word of a section, as `SearchMask` and as `ScanTable` decode it; the latter
  -- goes back from word `k`.
  unfoldable pub search_insn : Section → ℕ → Insn
  search_insn s i = disassemble (be32 image (s.data_at + 4 * i)) 0

  unfoldable pub back_insn : Section → ℕ → ℕ → Insn
  back_insn s k i =
      disassemble (be32 image (s.data_at + 4 * (k - i))) (sub64 (add64 s.base (4 * k)) (4 * i))

  -- The table at a match, none where its base stays 0 or `ReadTable` fails.
  unfoldable pub table_at : ℕ → Section → ℕ → Option SwitchTable
  unfolding back_insn
  table_at type s k =
      let empty : SwitchTable = record {
        labels = [];
        base = 0;
        default_label = 0;
        r = 0;
        type = type;
      } in
      let t = scan_table (back_insn s k) (add64 s.base (4 * k)) empty k in
      if t.base == 0 then none else read_table disassemble image sections t

  -- The loop over a section from word `pos` on; none means out of fuel.
  unfoldable pub section_tables : ℕ → List ℕ → Section → ℕ → ℕ → Option (List SwitchTable)
  section_tables type pattern s zero pos = none
  section_tables type pattern s (suc fuel) pos =
      if ltb pos (s.size / 4)
      then elim (search_mask (λ k. search_insn s (pos + k)) (s.size / 4 - pos) pattern) [
        | none ↦ some []
        | some k ↦ elim (section_tables type pattern s fuel (pos + k + 1)) [
          | none ↦ none
          | some rest ↦ some (keep (table_at type s (pos + k)) rest)
        ]
      ]
      else some []

  -- `scanPattern`.
  unfoldable pub scan_pattern : ℕ → List ℕ → List Section → Option (List SwitchTable)
  scan_pattern type pattern [] = some []
  scan_pattern type pattern (s ∷ ss) = do
    here ← if is_code s then section_tables type pattern s (s.size / 4 + 1) 0 else some []
    rest ← scan_pattern type pattern ss
    some (here ++ rest)

  -- The four scans of `main`.
  unfoldable pub all_tables : Option (List SwitchTable)
  all_tables = do
    absolutes ← scan_pattern switch_absolute absolute_switch sections
    computed ← scan_pattern switch_computed computed_switch sections
    bytes ← scan_pattern switch_byteoffset offset_switch sections
    shorts ← scan_pattern switch_shortoffset word_offset_switch sections
    some (absolutes ++ (computed ++ (bytes ++ shorts)))

  -- The tables at given words of a section.
  unfoldable pub tables_at : ℕ → Section → List ℕ → List SwitchTable
  tables_at type s [] = []
  tables_at type s (k ∷ ks) = keep (table_at type s k) (tables_at type s ks)

  -- The tables of a pattern: those at the words of the code sections at which it matches.
  unfoldable pub matching_tables : ℕ → List ℕ → List Section → List SwitchTable
  matching_tables type pattern [] = []
  matching_tables type pattern (s ∷ ss) =
      (if is_code s
        then tables_at type s
            (positions (mask_at (search_insn s) (s.size / 4) pattern) (s.size / 4) 0)
        else [])
      ++ matching_tables type pattern ss

  abbrev tables_of : ℕ → Section → Option (List ℕ) → Option (List SwitchTable)
  tables_of type s none = none
  tables_of type s (some ks) = some (tables_at type s ks)
