-- ===== src/Crt.antt =====
-- `XenonUtils/crt_helpers.h` and `XenonUtils/crt_helpers.cpp`: the detection of the register save
-- and restore helpers. A section's code is read through `word_at`; displacements are `int32_t`
-- bit patterns.
pub mod Scan
pub mod Runs
pub mod First
use Prim.Native.Nat.{bit_and}
use xenon_recomp.Base.{
  ℕ, zero, suc, ◌+◌, ◌-◌, ◌*◌, ◌/◌, ◌%◌, ◌^◌, Bool, true, not, ◌&&◌, ltb, ◌==◌, if◌then◌else◌,
  add32,
}
use xenon_recomp.Memory.{Bytes, be32}

unfoldable pub opcode : ℕ → ℕ
opcode insn = insn / 2 ^ 26 % 64

unfoldable pub rd : ℕ → ℕ
rd insn = insn / 2 ^ 21 % 32

unfoldable pub ra : ℕ → ℕ
ra insn = insn / 2 ^ 16 % 32

unfoldable pub rb : ℕ → ℕ
rb insn = insn / 2 ^ 11 % 32

-- An `int16_t` widened to an `int32_t`.
abbrev sign_extend : ℕ → ℕ
sign_extend h = if ltb h (2 ^ 15) then h else 2 ^ 32 - 2 ^ 16 + h

unfoldable pub simm : ℕ → ℕ
simm insn = sign_extend (insn % 2 ^ 16)

unfoldable pub ds : ℕ → ℕ
ds insn = sign_extend (insn % 2 ^ 16 - insn % 4)

unfoldable pub is_ld : ℕ → ℕ → ℕ → Bool
unfolding opcode rd ra
is_ld insn rt base = opcode insn == 58 && insn % 4 == 0 && rd insn == rt && ra insn == base

unfoldable pub is_std : ℕ → ℕ → ℕ → Bool
unfolding opcode rd ra
is_std insn rt base = opcode insn == 62 && insn % 4 == 0 && rd insn == rt && ra insn == base

unfoldable pub is_lwz : ℕ → ℕ → ℕ → Bool
unfolding opcode rd ra
is_lwz insn rt base = opcode insn == 32 && rd insn == rt && ra insn == base

unfoldable pub is_stw : ℕ → ℕ → ℕ → Bool
unfolding opcode rd ra
is_stw insn rt base = opcode insn == 36 && rd insn == rt && ra insn == base

unfoldable pub is_lfd : ℕ → ℕ → Bool
unfolding opcode rd
is_lfd insn ft = opcode insn == 50 && rd insn == ft

unfoldable pub is_stfd : ℕ → ℕ → Bool
unfolding opcode rd
is_stfd insn ft = opcode insn == 54 && rd insn == ft

-- `lvx` has the extended opcode 103 and `stvx` 231, each shifted by one behind 0x7C000000.
unfoldable pub is_lvx : ℕ → ℕ → Bool
unfolding rd
is_lvx insn vd = bit_and insn 0xFC0007FF == 0x7C000000 + 103 * 2 && rd insn == vd

unfoldable pub is_stvx : ℕ → ℕ → Bool
unfolding rd
is_stvx insn vs = bit_and insn 0xFC0007FF == 0x7C000000 + 231 * 2 && rd insn == vs

-- The seven-bit register field: bits 2 and 3 above the five bits from 21 on.
unfoldable pub vd128 : ℕ → ℕ
vd128 insn = insn / 4 % 4 * 32 + insn / 2 ^ 21 % 32

unfoldable pub is_lvx128 : ℕ → ℕ → Bool
unfolding vd128
is_lvx128 insn vd = bit_and insn 0xFC0007F3 == 0x10000000 + 195 && vd128 insn == vd

unfoldable pub is_stvx128 : ℕ → ℕ → Bool
unfolding vd128
is_stvx128 insn vs = bit_and insn 0xFC0007F3 == 0x10000000 + 451 && vd128 insn == vs

unfoldable pub is_addi : ℕ → Bool
unfolding opcode
is_addi insn = opcode insn == 14

-- `WordAt`: the big-endian word of a section's data.
unfoldable pub word_at : Bytes → ℕ → ℕ → ℕ
unfolding be32
word_at bytes start index = be32 bytes (start + index * 4)

-- A `MatchFn`: whether a word loads or stores the register, and its displacement.
pub record Matcher : Type 0 where
  pub matches : ℕ → ℕ → Bool
  pub displacement : ℕ → ℕ

abbrev pub gpr_load : Bool → ℕ → Matcher
gpr_load ld64 base = record {
  matches = λ insn rt. if ld64 then is_ld insn rt base else is_lwz insn rt base;
  displacement = λ insn. if ld64 then ds insn else simm insn;
}

abbrev pub gpr_store : Bool → ℕ → Matcher
gpr_store st64 base = record {
  matches = λ insn rt. if st64 then is_std insn rt base else is_stw insn rt base;
  displacement = λ insn. if st64 then ds insn else simm insn;
}

abbrev pub fpr_load : ℕ → Matcher
fpr_load base = record {
  matches = λ insn ft. is_lfd insn ft && ra insn == base;
  displacement = simm;
}

abbrev pub fpr_store : ℕ → Matcher
fpr_store base = record {
  matches = λ insn ft. is_stfd insn ft && ra insn == base;
  displacement = simm;
}

-- The loop of `DetectRegisterRun` from round `k` on, with `left` rounds to go.
unfoldable pub register_loop : (ℕ → ℕ) → Matcher → ℕ → ℕ → ℕ → ℕ → ℕ → ℕ → Bool
register_loop word match i first_reg stride displacement zero k = true
register_loop word match i first_reg stride displacement (suc left) k =
    let insn = word (i + k) in
    match.matches insn (first_reg + k)
    && match.displacement insn == add32 displacement (k * stride)
    && register_loop word match i first_reg stride displacement left (k + 1)

-- `DetectRegisterRun` over the words of a section.
unfoldable pub detect_register_run : (ℕ → ℕ) → ℕ → ℕ → ℕ → ℕ → ℕ → Matcher → Bool
unfolding register_loop
detect_register_run word word_count i first_reg count stride match =
    not (ltb word_count (i + count))
    && match.matches (word i) first_reg
    && register_loop word match i first_reg stride (match.displacement (word i)) (count - 1) 1

-- The loop of `DetectVectorPairRun`; `a` and `b` are the address registers of the first pair.
unfoldable pub pair_loop : (ℕ → ℕ) → (ℕ → ℕ → Bool) → ℕ → ℕ → ℕ → ℕ → ℕ → ℕ → Bool
pair_loop word match i first_reg a b zero k = true
pair_loop word match i first_reg a b (suc left) k =
    let insn = word (i + k * 2) in
    match insn (first_reg + k)
    && ra insn == a
    && rb insn == b
    && is_addi (word (i + k * 2 - 1))
    && pair_loop word match i first_reg a b left (k + 1)

-- `DetectVectorPairRun`; the setup word of the first pair stands before `i`.
unfoldable pub detect_vector_pair_run : (ℕ → ℕ) → ℕ → ℕ → ℕ → ℕ → (ℕ → ℕ → Bool) → Bool
unfolding pair_loop is_addi ra rb
detect_vector_pair_run word word_count i first_reg count match =
    not (ltb i 1)
    && not (ltb word_count (i - 1 + count * 2))
    && match (word i) first_reg
    && is_addi (word (i - 1))
    && pair_loop word match i first_reg (ra (word i)) (rb (word i)) (count - 1) 1
