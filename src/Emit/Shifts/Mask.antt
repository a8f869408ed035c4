-- ===== src/Emit/Shifts/Mask.antt =====
-- `ComputeMask` digit by digit.
use xenon_recomp.Base.{
  ℕ, ◌-◌, ◌+◌, ◌%◌, ◌^◌, ◌<◌, ◌≤◌, ◌≡◌, ◌∙◌, ap, refl, Bool, ◌&&◌, ◌||◌, leb, ltb, true, false,
  if◌then◌else◌, if-elim, if-cases, arith, bit, bit-ones, bit-small, bit-bit_xor, bit-complement,
  bit_xor-lt, tests, bit_xor,
}
use xenon_recomp.Emit.Shifts.{compute_mask}
use Prim.Native.Nat.{differ}
use native.Mathlib.Nat.{one-le-pow, pow-le-pow_right}

-- Whether a digit, counted from the highest of 64, is in the mask that starts and stops at two others:
-- those from the first to the second, or, where the first is behind the second, from it to the end and
-- from the beginning to the second.
unfoldable pub in_mask : ℕ → ℕ → ℕ → Bool
in_mask start stop j =
    if leb start stop then leb start j && leb j stop else leb start j || leb j stop

ones_bit : (n k : ℕ) → bit (2 ^ n - 1) k ≡ (if ltb k n then 1 else 0)
ones_bit n k =
    if-cases (λ x. bit (2 ^ n - 1) k ≡ x) (ltb k n) (λ e. bit-ones n k (omega tests))
      (λ e. bit-small n k (2 ^ n - 1) (omega (arith, one-le-pow n 2)) (omega tests))

-- The second term of the mask: the digits behind the stop.
tail_value :
    (to : ℕ) → to < 64 → (if leb 63 to then 0 else 2 ^ (64 - (to + 1)) - 1) ≡ 2 ^ (63 - to) - 1
tail_value to h =
    if-cases (λ x. x ≡ 2 ^ (63 - to) - 1) (leb 63 to)
      (λ e. ap (λ (n : ℕ). 2 ^ n - 1) {x = 0} (omega tests))
      (λ e. ap (λ (n : ℕ). 2 ^ n - 1) (omega tests))

differ_ints :
    (p q : Bool)
    → differ (if p then 1 else 0) (if q then 1 else 0)
      ≡ (if p then if q then 0 else 1 else if q then 1 else 0)
differ_ints true true = refl
differ_ints true false = refl
differ_ints false true = refl
differ_ints false false = refl

-- The exclusive or of the two terms.
abbrev value_of : ℕ → ℕ → ℕ
value_of start stop =
    bit_xor (2 ^ (64 - start) - 1) (if leb 63 stop then 0 else 2 ^ (64 - (stop + 1)) - 1)

value_bit :
    (start stop k : ℕ)
    → stop < 64
    → bit (value_of start stop) k ≡ (
        if ltb k (64 - start)
        then if ltb k (63 - stop) then 0 else 1
        else if ltb k (63 - stop)
        then 1
        else 0)
value_bit start stop k h =
    ap (λ (x : ℕ). bit (bit_xor (2 ^ (64 - start) - 1) x) k) (tail_value stop h)
    ∙ bit-bit_xor k (2 ^ (64 - start) - 1) (2 ^ (63 - stop) - 1)
    ∙ rw (ones_bit (64 - start) k, ones_bit (63 - stop) k) refl
    ∙ differ_ints (ltb k (64 - start)) (ltb k (63 - stop))

ones-lt : (n : ℕ) → n ≤ 64 → 2 ^ n - 1 < 2 ^ 64
ones-lt n h = omega (arith, one-le-pow n 2, pow-le-pow_right {n = 2} (omega arith) h)

value-lt : (start stop : ℕ) → stop < 64 → value_of start stop < 2 ^ 64
value-lt start stop h = rw (tail_value stop h) (
    bit_xor-lt 64 (2 ^ (64 - start) - 1) (2 ^ (63 - stop) - 1) (ones-lt (64 - start) (omega arith))
      (ones-lt (63 - stop) (omega arith)))

-- A digit of the mask that `ComputeMask` returns is one where it is in the range of the two
-- arguments taken modulo 64, and zero elsewhere.
pub compute_mask-bit :
    (start stop k : ℕ)
    → k < 64
    → bit (compute_mask start stop) k ≡ (if in_mask (start % 64) (stop % 64) (63 - k) then 1 else 0)
unfolding compute_mask in_mask
compute_mask-bit start stop k h =
    if-cases (λ x. bit x k ≡ (if in_mask (start % 64) (stop % 64) (63 - k) then 1 else 0))
      (leb (start % 64) (stop % 64))
      (λ e. value_bit (start % 64) (stop % 64) k (omega arith) ∙ ground arith)
      (λ e.
        bit-complement 64 k (value_of (start % 64) (stop % 64))
          (value-lt (start % 64) (stop % 64) (omega arith)) h
        ∙ ap (λ (x : ℕ). 1 - x) (value_bit (start % 64) (stop % 64) k (omega arith))
        ∙ ground arith)

pub compute_mask-lt : (start stop : ℕ) → compute_mask start stop < 2 ^ 64
unfolding compute_mask
compute_mask-lt start stop =
    let bound = value-lt (start % 64) (stop % 64) (omega arith) in
    if-elim (λ x. x < 2 ^ 64) (leb (start % 64) (stop % 64)) bound (omega arith)
