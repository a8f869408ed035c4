-- ===== src/Base/Bits.antt =====
-- The binary digits of a number, and what `&`, `|` and `^` do to each.
use Prim.Native.Nat.{
  ℕ, zero, suc, ◌+◌, ◌-◌, ◌*◌, ◌/◌, ◌%◌, ◌^◌, ◌≤◌, ◌<◌, min, max, digits, bitwise, differ, bit_and,
  bit_or, bit_xor, bit_and-bitwise, bit_or-bitwise, bit_xor-bitwise,
}
use mathlib.Core.Path.{◌≡◌, refl, sym, ap, ◌∙◌}
use native.Mathlib.Omega.{arith}
use native.Mathlib.Nat.{pow-suc, pow-zero, one-le-pow, div-add-mod' as div-mod_split}

-- The digit at position `k`.
unfoldable pub bit : ℕ → ℕ → ℕ
bit a zero = a % 2
bit a (suc k) = bit (a / 2) k

-- Any fuel from the number on gives the same digits.
module _ (z : ℕ → ℕ) (f : ℕ → ℕ → ℕ) where
  digits_any_fuel : (m n a b : ℕ) → a ≤ m → a ≤ n → digits z f m a b ≡ digits z f n a b
  digits_any_fuel zero zero a b hm hn = refl
  digits_any_fuel zero (suc n) zero b hm hn = refl
  digits_any_fuel zero (suc n) (suc a) b hm hn = absurd (omega arith)
  digits_any_fuel (suc m) zero zero b hm hn = refl
  digits_any_fuel (suc m) zero (suc a) b hm hn = absurd (omega arith)
  digits_any_fuel (suc m) (suc n) zero b hm hn = refl
  digits_any_fuel (suc m) (suc n) (suc a) b hm hn =
      rw (digits_any_fuel m n (suc a / 2) (b / 2) (omega arith) (omega arith))

  bitwise_step :
      (a b : ℕ)
      → bitwise z f (suc a) b ≡ bitwise z f (suc a / 2) (b / 2) * 2 + f (suc a % 2) (b % 2)
  bitwise_step a b =
      omega (arith, digits_any_fuel a (suc a / 2) (suc a / 2) (b / 2) (omega arith) (omega arith))

bit_and_unroll : (a b : ℕ) → bit_and a b ≡ bit_and (a / 2) (b / 2) * 2 + min (a % 2) (b % 2)
bit_and_unroll zero b = simp bit_and-bitwise (omega arith)
bit_and_unroll (suc a) b = simp bit_and-bitwise (bitwise_step (λ y. 0) min a b)

bit_or_unroll : (a b : ℕ) → bit_or a b ≡ bit_or (a / 2) (b / 2) * 2 + max (a % 2) (b % 2)
bit_or_unroll zero b = simp bit_or-bitwise (omega arith)
bit_or_unroll (suc a) b = simp bit_or-bitwise (bitwise_step (λ y. y) max a b)

bit_xor_unroll : (a b : ℕ) → bit_xor a b ≡ bit_xor (a / 2) (b / 2) * 2 + differ (a % 2) (b % 2)
bit_xor_unroll zero b = simp bit_xor-bitwise (omega arith)
bit_xor_unroll (suc a) b = simp bit_xor-bitwise (bitwise_step (λ y. y) differ a b)

differ-lt : (a b : ℕ) → a < 2 → b < 2 → differ a b < 2
differ-lt zero b ha hb = hb
differ-lt (suc zero) zero ha hb = ha
differ-lt (suc zero) (suc zero) ha hb = omega arith
differ-lt (suc zero) (suc (suc b)) ha hb = absurd (omega arith)
differ-lt (suc (suc a)) b ha hb = absurd (omega arith)

pub bit-lt : (a k : ℕ) → bit a k < 2
unfolding bit
bit-lt a zero = omega arith
bit-lt a (suc k) = bit-lt (a / 2) k

-- The digits of a result are that operation on the digits.
pub bit-bit_and : (k a b : ℕ) → bit (bit_and a b) k ≡ min (bit a k) (bit b k)
unfolding bit
bit-bit_and zero a b = omega (arith, bit_and_unroll a b)
bit-bit_and (suc k) a b =
    ap (λ (x : ℕ). bit x k) (omega (arith, bit_and_unroll a b)) ∙ bit-bit_and k (a / 2) (b / 2)

pub bit-bit_or : (k a b : ℕ) → bit (bit_or a b) k ≡ max (bit a k) (bit b k)
unfolding bit
bit-bit_or zero a b = omega (arith, bit_or_unroll a b)
bit-bit_or (suc k) a b =
    ap (λ (x : ℕ). bit x k) (omega (arith, bit_or_unroll a b)) ∙ bit-bit_or k (a / 2) (b / 2)

pub bit-bit_xor : (k a b : ℕ) → bit (bit_xor a b) k ≡ differ (bit a k) (bit b k)
unfolding bit
bit-bit_xor zero a b =
    omega (arith, bit_xor_unroll a b, differ-lt (a % 2) (b % 2) (omega arith) (omega arith))
bit-bit_xor (suc k) a b =
    ap (λ (x : ℕ). bit x k)
      (omega (arith, bit_xor_unroll a b, differ-lt (a % 2) (b % 2) (omega arith) (omega arith)))
    ∙ bit-bit_xor k (a / 2) (b / 2)

-- Numbers with the same digits are the same.
pub bits-ext : (w a b : ℕ) → a < 2 ^ w → b < 2 ^ w → ((k : ℕ) → k < w → bit a k ≡ bit b k) → a ≡ b
unfolding bit
bits-ext zero a b ha hb same = omega arith
bits-ext (suc w) a b ha hb same = omega (
  arith,
  same 0 (omega arith),
  bits-ext w (a / 2) (b / 2) (omega (arith, pow-suc 2 w)) (omega (arith, pow-suc 2 w))
      (λ k h. same (suc k) (omega arith)),
)

bit_same : (a b k j : ℕ) → a ≡ b → k ≡ j → bit a k ≡ bit b j
bit_same a b k j e f = ap (λ (x : ℕ). bit x k) e ∙ ap (λ (t : ℕ). bit b t) f

half_scaled : (q r n : ℕ) → (q * 2 ^ suc n + r) / 2 ≡ q * 2 ^ n + r / 2
half_scaled q r n = omega (arith, ap (λ (t : ℕ). q * t) (pow-suc 2 n))

-- The digits of `(q << n) | r` where `r` has `n` digits: those of `r`, then those of `q`.
pub bit_below : (n k q r : ℕ) → k < n → bit (q * 2 ^ n + r) k ≡ bit r k
unfolding bit
bit_below zero k q r h = absurd (omega arith)
bit_below (suc n) zero q r h = omega (arith, half_scaled q r n, ap (λ (t : ℕ). q * t) (pow-suc 2 n))
bit_below (suc n) (suc k) q r h =
    ap (λ (x : ℕ). bit x k) (half_scaled q r n) ∙ bit_below n k q (r / 2) (omega arith)

pub bit_above : (n k q r : ℕ) → r < 2 ^ n → n ≤ k → bit (q * 2 ^ n + r) k ≡ bit q (k - n)
unfolding bit
bit_above zero k q r fits h =
    bit_same (q * 2 ^ 0 + r) q k (k - 0) (omega (arith, pow-zero 2)) (omega arith)
bit_above (suc n) zero q r fits h = absurd (omega arith)
bit_above (suc n) (suc k) q r fits h =
    ap (λ (x : ℕ). bit x k) (half_scaled q r n)
    ∙ bit_above n k q (r / 2) (omega (arith, pow-suc 2 n)) (omega arith)
    ∙ bit_same q q (k - n) (suc k - suc n) refl (omega arith)

pub bit-zero : (k : ℕ) → bit 0 k ≡ 0
unfolding bit
bit-zero zero = refl
bit-zero (suc k) = bit-zero k

split_at : (a n : ℕ) → a / 2 ^ n * 2 ^ n + a % 2 ^ n ≡ a
split_at a n = div-mod_split a (2 ^ n)

low-lt : (a n : ℕ) → a % 2 ^ n < 2 ^ n
low-lt a n = omega (arith, one-le-pow n 2)

-- A number below `2 ^ n` has no digit from `n` on.
pub bit-small : (n k a : ℕ) → a < 2 ^ n → n ≤ k → bit a k ≡ 0
bit-small n k a fits h =
    bit_same a (0 * 2 ^ n + a) k k (omega arith) refl ∙ bit_above n k 0 a fits h ∙ bit-zero (k - n)

-- The digits of the low part, and of shifts.
pub bit-low : (n k a : ℕ) → k < n → bit (a % 2 ^ n) k ≡ bit a k
bit-low n k a h =
    sym (bit_below n k (a / 2 ^ n) (a % 2 ^ n) h) ∙ ap (λ (x : ℕ). bit x k) (split_at a n)

pub bit-low_out : (n k a : ℕ) → n ≤ k → bit (a % 2 ^ n) k ≡ 0
bit-low_out n k a h = bit-small n k (a % 2 ^ n) (low-lt a n) h

pub bit-shift_left : (n k a : ℕ) → n ≤ k → bit (a * 2 ^ n) k ≡ bit a (k - n)
bit-shift_left n k a h =
    ap (λ (x : ℕ). bit x k) (omega arith) ∙ bit_above n k a 0 (omega (arith, one-le-pow n 2)) h

pub bit-shift_left_out : (n k a : ℕ) → k < n → bit (a * 2 ^ n) k ≡ 0
bit-shift_left_out n k a h =
    ap (λ (x : ℕ). bit x k) (omega arith) ∙ bit_below n k a 0 h ∙ bit-zero k

pub bit-shift_right : (n k a : ℕ) → bit (a / 2 ^ n) k ≡ bit a (k + n)
bit-shift_right n k a =
    ap (λ (t : ℕ). bit (a / 2 ^ n) t) (omega arith)
    ∙ sym (bit_above n (k + n) (a / 2 ^ n) (a % 2 ^ n) (low-lt a n) (omega arith))
    ∙ ap (λ (x : ℕ). bit x (k + n)) (split_at a n)

-- All digits of `2 ^ n - 1` below `n` are one.
pub bit-ones : (n k : ℕ) → k < n → bit (2 ^ n - 1) k ≡ 1
unfolding bit
bit-ones zero k h = absurd (omega arith)
bit-ones (suc n) zero h = omega (arith, pow-suc 2 n, one-le-pow n 2)
bit-ones (suc n) (suc k) h =
    ap (λ (x : ℕ). bit x k) (omega (arith, pow-suc 2 n, one-le-pow n 2))
    ∙ bit-ones n k (omega arith)

-- The complement within `w` digits turns each of them.
pub bit-complement : (w k x : ℕ) → x < 2 ^ w → k < w → bit (2 ^ w - 1 - x) k ≡ 1 - bit x k
unfolding bit
bit-complement zero k x fits h = absurd (omega arith)
bit-complement (suc w) zero x fits h = omega (arith, pow-suc 2 w)
bit-complement (suc w) (suc k) x fits h =
    bit_same ((2 ^ suc w - 1 - x) / 2) (2 ^ w - 1 - x / 2) k k (omega (arith, pow-suc 2 w)) refl
    ∙ bit-complement w k (x / 2) (omega (arith, pow-suc 2 w)) (omega arith)

pub bit_or-lt : (w a b : ℕ) → a < 2 ^ w → b < 2 ^ w → bit_or a b < 2 ^ w
bit_or-lt zero zero zero ha hb = omega arith
bit_or-lt zero zero (suc b) ha hb = absurd (omega arith)
bit_or-lt zero (suc a) b ha hb = absurd (omega arith)
bit_or-lt (suc w) a b ha hb = omega (
  arith,
  bit_or_unroll a b,
  pow-suc 2 w,
  bit_or-lt w (a / 2) (b / 2) (omega (arith, pow-suc 2 w)) (omega (arith, pow-suc 2 w)),
)

pub bit_and-lt : (w a b : ℕ) → a < 2 ^ w → bit_and a b < 2 ^ w
bit_and-lt zero zero b ha = simp bit_and-bitwise (omega arith)
bit_and-lt zero (suc a) b ha = absurd (omega arith)
bit_and-lt (suc w) a b ha = omega (
  arith,
  bit_and_unroll a b,
  pow-suc 2 w,
  bit_and-lt w (a / 2) (b / 2) (omega (arith, pow-suc 2 w)),
)

pub bit_xor-lt : (w a b : ℕ) → a < 2 ^ w → b < 2 ^ w → bit_xor a b < 2 ^ w
bit_xor-lt zero zero zero ha hb = omega arith
bit_xor-lt zero zero (suc b) ha hb = absurd (omega arith)
bit_xor-lt zero (suc a) b ha hb = absurd (omega arith)
bit_xor-lt (suc w) a b ha hb = omega (
  arith,
  bit_xor_unroll a b,
  differ-lt (a % 2) (b % 2) (omega arith) (omega arith),
  pow-suc 2 w,
  bit_xor-lt w (a / 2) (b / 2) (omega (arith, pow-suc 2 w)) (omega (arith, pow-suc 2 w)),
)

-- A digit of a number of two bits is one of those of 3.
pub bit-two : (q k : ℕ) → q < 4 → bit q k ≤ bit 3 k
unfolding bit
bit-two q zero h = omega arith
bit-two q (suc zero) h = omega arith
bit-two q (suc (suc k)) h = omega (arith, bit-small 2 (suc (suc k)) q (omega arith) (omega arith))
