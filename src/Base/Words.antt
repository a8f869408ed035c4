-- ===== src/Base/Words.antt =====
-- Fixed-width unsigned arithmetic. Values are plain numbers; each operation wraps as in the source.
-- `x >> k` is `x / 2 ^ k`, `x & (2 ^ k - 1)` is `x % 2 ^ k`, `x << k` is `x * 2 ^ k`.
use Prim.Native.Nat.{ℕ, ◌+◌, ◌-◌, ◌%◌, ◌^◌}

-- The number of values of a `size_t`, which has 64 bits, and of a `uint32_t`.
abbrev pub size_mod : ℕ
size_mod = 2 ^ 64

abbrev pub u32_mod : ℕ
u32_mod = 2 ^ 32

-- `static_cast<size_t>(-1)`.
abbrev pub size_max : ℕ
size_max = 2 ^ 64 - 1

abbrev pub u32 : ℕ → ℕ
u32 n = n % 2 ^ 32

-- Sums and differences of `size_t`; 2 ^ 64 is added first since `-` stops at 0.
abbrev pub add64 : ℕ → ℕ → ℕ
add64 a b = (a + b) % 2 ^ 64

abbrev pub sub64 : ℕ → ℕ → ℕ
sub64 a b = (a + 2 ^ 64 - b % 2 ^ 64) % 2 ^ 64

-- Sums and differences of `uint32_t`.
abbrev pub add32 : ℕ → ℕ → ℕ
add32 a b = (a + b) % 2 ^ 32

abbrev pub sub32 : ℕ → ℕ → ℕ
sub32 a b = (a + 2 ^ 32 - b % 2 ^ 32) % 2 ^ 32
