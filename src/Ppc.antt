-- ===== src/Ppc.antt =====
-- The field macros of `thirdparty/disasm/ppc.h` and `ByteSwap` of `XenonUtils/byteswap.h`.
-- An instruction is a number below 2 ^ 32.
use xenon_recomp.Base.{
  ℕ, ◌⊎◌, ◌≤◌, ◌+◌, ◌-◌, ◌*◌, ◌/◌, ◌%◌, ◌^◌, ◌<◌, ◌≡◌, Bool, ltb, ◌==◌, if◌then◌else◌, arith,
}

-- `ByteSwap` of a `uint32_t`.
unfoldable pub byte_swap32 : ℕ → ℕ
byte_swap32 w =
    w % 256 * 2 ^ 24 + w / 2 ^ 8 % 256 * 2 ^ 16 + w / 2 ^ 16 % 256 * 2 ^ 8 + w / 2 ^ 24 % 256

unfoldable pub byte_swap16 : ℕ → ℕ
byte_swap16 w = w % 256 * 2 ^ 8 + w / 2 ^ 8 % 256

unfoldable pub op : ℕ → ℕ
op i = i / 2 ^ 26 % 64

unfoldable pub xop : ℕ → ℕ
xop i = i / 2 % 1024

-- The signed displacement of a conditional branch, `PPC_BD`, as a `size_t`: the low 16 bits
-- without the last two, sign-extended.
unfoldable pub branch_bd : ℕ → ℕ
branch_bd i = let d = i % 2 ^ 16 - i % 4 in if ltb d (2 ^ 15) then d else 2 ^ 64 - 2 ^ 16 + d

-- The same for an immediate branch, `PPC_BI`, with 26 bits.
unfoldable pub branch_bi : ℕ → ℕ
branch_bi i = let d = i % 2 ^ 26 - i % 4 in if ltb d (2 ^ 25) then d else 2 ^ 64 - 2 ^ 26 + d

-- `PPC_BL` and `PPC_BO`.
unfoldable pub is_link : ℕ → Bool
is_link i = i % 2 == 1

unfoldable pub branch_bo : ℕ → ℕ
branch_bo i = i / 2 ^ 21 % 32

abbrev pub op_bc : ℕ
op_bc = 0x10

abbrev pub op_b : ℕ
op_b = 0x12

abbrev pub op_ctr : ℕ
op_ctr = 0x13

pub byte_swap32-lt : (w : ℕ) → byte_swap32 w < 2 ^ 32
unfolding byte_swap32
byte_swap32-lt w = omega arith

pub byte_swap32-byte_swap32 : (w : ℕ) → w < 2 ^ 32 → byte_swap32 (byte_swap32 w) ≡ w
unfolding byte_swap32
byte_swap32-byte_swap32 w h = omega arith

pub branch_bd-mod : (i : ℕ) → branch_bd i % 4 ≡ 0
unfolding branch_bd
branch_bd-mod i = ground arith

pub branch_bi-mod : (i : ℕ) → branch_bi i % 4 ≡ 0
unfolding branch_bi
branch_bi-mod i = ground arith

-- A displacement is small, or a small number below zero.
pub branch_bi_range : (i : ℕ) → (branch_bi i < 2 ^ 25) ⊎ (2 ^ 64 ≤ branch_bi i + 2 ^ 25)
unfolding branch_bi
branch_bi_range i = ground arith

pub branch_bi-lt : (i : ℕ) → branch_bi i < 2 ^ 64
unfolding branch_bi
branch_bi-lt i = ground arith
