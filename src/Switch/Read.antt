-- ===== src/Switch/Read.antt =====
-- `ReadTable` of `XenonAnalyse/main.cpp` and the helpers that it calls.
use xenon_recomp.Base.{
  ℕ, ◌+◌, ◌*◌, ◌^◌, Bool, false, not, ◌||◌, ltb, leb, ◌==◌, if◌then◌else◌, Option, none, some, List,
  [], ◌∷◌, length, ◌>>=◌, add32, add64,
}
use xenon_recomp.Memory.{Bytes, be16, be32}
use xenon_recomp.Image.{Section, find_section, find_address}
use xenon_recomp.Switch.{
  Insn, SwitchTable, switch_absolute, switch_computed, switch_byteoffset, switch_shortoffset,
  has_opcode,
}

-- `IsRegionMapped`.
unfoldable pub is_region_mapped : List Section → ℕ → ℕ → Bool
is_region_mapped sections address byte_count = elim (find_section sections address) [
  | none ↦ false
  | some s ↦ leb (add64 address byte_count) (add64 s.base s.size)
]

-- The loops over the labels: label `i` from the entry of `stride` bytes at `p + i * stride`.
unfoldable pub fill_labels : (ℕ → ℕ) → ℕ → ℕ → List ℕ → List ℕ
fill_labels entry stride p [] = []
fill_labels entry stride p (x ∷ xs) = entry p ∷ fill_labels entry stride (p + stride) xs

module _ (disassemble : ℕ → ℕ → Insn) (image : Bytes) (sections : List Section) where
  -- `SafeDisassemble`.
  unfoldable pub safe_disassemble : ℕ → Option Insn
  safe_disassemble address = elim (find_address sections address) [
    | none ↦ none
    | some p ↦
        let insn = disassemble (be32 image p) address in if has_opcode insn then some insn else none
  ]

  -- The two-word immediates of the table's code: the upper half at one address, the lower half,
  -- an operand of the instruction at another.
  unfoldable pub read_immediate : ℕ → ℕ → Option ℕ
  unfolding safe_disassemble
  read_immediate hi lo = do
    high ← safe_disassemble hi
    low ← safe_disassemble lo
    some (add32 (high.operand 1 * 2 ^ 16) (low.operand 2))

  unfoldable pub read_labels : ℕ → ℕ → (ℕ → ℕ) → List ℕ → Option (List ℕ)
  unfolding is_region_mapped fill_labels
  read_labels p_offset stride entry labels =
      if is_region_mapped sections p_offset (length labels * stride)
      then elim (find_address sections p_offset) [
        | none ↦ none
        | some p ↦ some (fill_labels entry stride p labels)
      ]
      else none

  -- `shift`, which the code limits to 24.
  unfoldable pub read_shift : ℕ → Option ℕ
  unfolding safe_disassemble
  read_shift address = do
    insn ← safe_disassemble address
    if ltb 24 (insn.operand 2) then none else some (insn.operand 2)

  -- `SWITCH_COMPUTED`, with a shifted byte for each label.
  unfoldable pub read_computed : ℕ → SwitchTable → Option (List ℕ)
  unfolding read_labels read_immediate read_shift
  read_computed p_offset t = do
    base ← read_immediate (add64 t.base 0x10) (add64 t.base 0x14)
    shift ← read_shift (add64 t.base 0x0C)
    read_labels p_offset 1 (λ p. add32 base (image p * 2 ^ shift)) t.labels

  -- `SWITCH_BYTEOFFSET`.
  unfoldable pub read_byteoffset : ℕ → SwitchTable → Option (List ℕ)
  unfolding read_labels read_immediate
  read_byteoffset p_offset t = do
    base ← read_immediate (add64 t.base 0x0C) (add64 t.base 0x10)
    read_labels p_offset 1 (λ p. add32 base (image p)) t.labels

  -- `SWITCH_SHORTOFFSET`.
  unfoldable pub read_shortoffset : ℕ → SwitchTable → Option (List ℕ)
  unfolding read_labels read_immediate
  read_shortoffset p_offset t = do
    base ← read_immediate (add64 t.base 0x10) (add64 t.base 0x14)
    read_labels p_offset 2 (λ p. add32 base (be16 image p)) t.labels

  -- The labels by the type of the table.
  unfoldable pub read_by_type : ℕ → ℕ → SwitchTable → Option (List ℕ)
  unfolding read_labels read_computed read_byteoffset read_shortoffset
  read_by_type type p_offset t =
      if type == switch_absolute
      then read_labels p_offset 4 (be32 image) t.labels
      else if type == switch_computed
      then read_computed p_offset t
      else if type == switch_byteoffset
      then read_byteoffset p_offset t
      else if type == switch_shortoffset
      then read_shortoffset p_offset t
      else none

  -- `ReadTable` behind its first guards; `none` is the result false.
  unfoldable pub read_mapped : SwitchTable → Option SwitchTable
  unfolding read_by_type read_immediate
  read_mapped t = do
    p_offset ← read_immediate t.base (add64 t.base 4)
    labels ← read_by_type t.type p_offset t
    some (record t { labels = labels })

  -- `ReadTable`.
  unfoldable pub read_table : SwitchTable → Option SwitchTable
  unfolding read_mapped is_region_mapped
  read_table t =
      if length t.labels == 0 || not (is_region_mapped sections t.base 24)
      then none
      else read_mapped t
