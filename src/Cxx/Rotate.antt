-- ===== src/Cxx/Rotate.antt =====
-- The rotations with a mask: what the printed lines compute, digit by digit.
use xenon_recomp.Emit.{
  Ref, View, s32, u32, s64, u64, and_bits, or_bits, shift_left, rotate_left64, Expr, dec, hex, bin,
  Stmt, set,
}
use xenon_recomp.Emit.Insn.{inst_rldicl, inst_rldicr, inst_rlwinm, Insn, op_r, r_as, compare_dot}
use xenon_recomp.Cxx.{
  uint64, Value, Host, Machine, convert, common, rotate_left, value, same_type, binary, view_value,
}
use xenon_recomp.Cxx.Eval.{dec_value, hex_value, eval, exec}
use xenon_recomp.Cxx.Put.{IsPut, set-IsPut, and_hex, rotate_dec}
use xenon_recomp.Base.{
  ℕ, zero, suc, add32, subst, dec_lt, ◌-◌, ◌+◌, ◌*◌, ◌/◌, ◌%◌, ◌^◌, ◌<◌, ◌≤◌, ◌≡◌, ◌∙◌, ap, refl,
  Bool, true, false, if◌then◌else◌, arith, min, bit, bit-lt, bit-low, bit-low_out, bit-shift_left,
  bit-shift_left_out, bit-shift_right, bit_below, bit_above, bit-bit_and, bit-bit_or, bit_and,
  bit_or, some, List, ◌∷◌, bit_or-lt,
}
use xenon_recomp.Emit.Shifts.{compute_mask, rotate_case}
use xenon_recomp.Emit.Shifts.Mask.{in_mask, compute_mask-bit, compute_mask-lt}
use native.Mathlib.Nat.{one-le-pow, pow-suc, pow-zero, div-lt_iff_lt-mul}

pow_split : (n k : ℕ) → 2 ^ (n + k) ≡ 2 ^ k * 2 ^ n
pow_split zero k = omega (
  arith,
  ap (λ (t : ℕ). 2 ^ k * t) (pow-zero 2),
  ap (λ (t : ℕ). 2 ^ t) {x = 0 + k} {y = k} (omega arith),
)
pow_split (suc n) k = omega (
  arith,
  ap (λ (t : ℕ). 2 ^ t) {x = suc n + k} {y = suc (n + k)} (omega arith),
  pow-suc 2 (n + k),
  pow-suc 2 n,
  pow_split n k,
  ap (λ (t : ℕ). 2 ^ k * t) (pow-suc 2 n),
)

-- The bits above a rotation's count come down to its place.
quotient-lt : (n x : ℕ) → n ≤ 64 → x < 2 ^ 64 → x / 2 ^ (64 - n) < 2 ^ n
quotient-lt n x h fits =
    (div-lt_iff_lt-mul {k = 2 ^ (64 - n)} (one-le-pow (64 - n) 2 (omega arith))).1 (
      subst (λ (t : ℕ). x < t)
        (ap (λ (t : ℕ). 2 ^ t) {x = 64} {y = (64 - n) + n} (omega arith) ∙ pow_split (64 - n) n)
        fits)

rotate_left-bit :
    (n x k : ℕ)
    → n < 64
    → x < 2 ^ 64
    → k < 64
    → bit (rotate_left 64 x n) k ≡ bit x ((k + 64 - n) % 64)
unfolding rotate_left
rotate_left-bit n x k hn fits hk =
    ap (λ (t : ℕ). bit (x % 2 ^ (64 - t) * 2 ^ t + x / 2 ^ (64 - t)) k) {x = n % 64} {y = n}
      (omega arith)
    ∙ elim (dec_lt k n) [
      | yes low ↦
          bit_below n k (x % 2 ^ (64 - n)) (x / 2 ^ (64 - n)) low
          ∙ bit-shift_right (64 - n) k x
          ∙ ap (λ (t : ℕ). bit x t) (omega arith)
      | no high ↦
          bit_above n k (x % 2 ^ (64 - n)) (x / 2 ^ (64 - n)) (quotient-lt n x (omega arith) fits)
            (omega arith)
          ∙ bit-low (64 - n) (k - n) x (omega arith)
          ∙ ap (λ (t : ℕ). bit x t) (omega arith)
    ]

-- A register's low word in both halves.
abbrev doubled : ℕ → ℕ
doubled a = bit_or (a % 2 ^ 32) (a % 2 ^ 64 * 2 ^ 32 % 2 ^ 64)

doubled-bit : (a j : ℕ) → j < 64 → bit (doubled a) j ≡ bit a (j % 32)
doubled-bit a j h =
    bit-bit_or j (a % 2 ^ 32) (a % 2 ^ 64 * 2 ^ 32 % 2 ^ 64)
    ∙ rw (bit-low 64 j (a % 2 ^ 64 * 2 ^ 32) h) (elim (dec_lt j 32) [
      | yes low ↦
          rw (bit-low 32 j a low, bit-shift_left_out 32 j (a % 2 ^ 64) low)
            (omega (arith, ap (λ (t : ℕ). bit a t) {x = j} {y = j % 32} (omega arith)))
      | no high ↦
          rw
            (
              bit-low_out 32 j a (omega arith),
              bit-shift_left 32 j (a % 2 ^ 64) (omega arith),
              bit-low 64 (j - 32) a (omega arith),
            )
            (omega (arith, ap (λ (t : ℕ). bit a t) {x = j - 32} {y = j % 32} (omega arith)))
    ])

doubled-lt : (a : ℕ) → doubled a < 2 ^ 64
doubled-lt a = bit_or-lt 64 (a % 2 ^ 32) (a % 2 ^ 64 * 2 ^ 32 % 2 ^ 64) (omega arith) (omega arith)

min_int : (x : ℕ) (p : Bool) → x < 2 → min x (if p then 1 else 0) ≡ (if p then x else 0)
min_int x true h = omega arith
min_int x false h = omega arith

-- The digits of a rotation under a mask.
masked-bit :
    (x n start stop k : ℕ)
    → n < 64
    → x < 2 ^ 64
    → k < 64
    → bit (bit_and (rotate_left 64 x n) (compute_mask start stop) % 2 ^ 64) k
      ≡ (if in_mask (start % 64) (stop % 64) (63 - k) then bit x ((k + 64 - n) % 64) else 0)
masked-bit x n start stop k hn fits hk =
    bit-low 64 k (bit_and (rotate_left 64 x n) (compute_mask start stop)) hk
    ∙ bit-bit_and k (rotate_left 64 x n) (compute_mask start stop)
    ∙ rw (rotate_left-bit n x k hn fits hk, compute_mask-bit start stop k hk)
        (min_int (bit x ((k + 64 - n) % 64)) (in_mask (start % 64) (stop % 64) (63 - k))
          (bit-lt x ((k + 64 - n) % 64)))

pub data RotateOp : Type 0 where
  rldicl rldicr rlwinm : RotateOp

unfoldable pub rotate_lines : RotateOp → Insn → List (Stmt Ref)
rotate_lines rldicl i = rotate_case inst_rldicl i
rotate_lines rldicr i = rotate_case inst_rldicr i
rotate_lines rlwinm i = rotate_case inst_rlwinm i

-- The operands that the encoding has: a count and one or two digits.
unfoldable pub HasRotateFields : RotateOp → Insn → Type 0
HasRotateFields rldicl i = (i.operands 2 < 64) × (i.operands 3 < 64)
HasRotateFields rldicr i = (i.operands 2 < 64) × (i.operands 3 < 64)
HasRotateFields rlwinm i = (i.operands 2 < 32) × (i.operands 3 < 32) × (i.operands 4 < 32)

-- A digit of the result by the manual's description: of the register rotated left, of its low
-- word rotated left, where the digit is in the mask.
unfoldable pub rotated_digit : RotateOp → Insn → ℕ → ℕ → ℕ
unfolding in_mask
rotated_digit rldicl i a k =
    if in_mask (i.operands 3) 63 (63 - k) then bit a ((k + 64 - i.operands 2) % 64) else 0
rotated_digit rldicr i a k =
    if in_mask 0 (i.operands 3) (63 - k) then bit a ((k + 64 - i.operands 2) % 64) else 0
rotated_digit rlwinm i a k =
    if in_mask (i.operands 3 + 32) (i.operands 4 + 32) (63 - k)
    then bit a ((k + 32 - i.operands 2) % 32)
    else 0

-- One masked rotation of a 64-bit value, as a line's expression.
masked_value :
    (h : Host) (m : Machine) (e : Expr Ref) (x n start stop : ℕ)
    → n < 64
    → eval h m e ≡ value uint64 x
    → eval h m (bin and_bits (bin rotate_left64 e (dec n)) (hex (compute_mask start stop)))
      ≡ value uint64 (bit_and (rotate_left 64 x n) (compute_mask start stop))
unfolding eval
masked_value h m e x n start stop small v =
    let mask = hex_value (compute_mask start stop) in
    ap (λ (u : Value). binary h and_bits (binary h rotate_left64 u (dec_value n)) mask) v
    ∙ ap (λ (u : Value). binary h and_bits u mask) (rotate_dec h x n small)
    ∙ and_hex h (rotate_left 64 x n) (compute_mask start stop) (compute_mask-lt start stop)

doubled_word :
    (h : Host) (m : Machine) (i : Insn)
    → eval h m (bin or_bits (r_as i 1 u32) (bin shift_left (r_as i 1 u64) (dec 32)))
      ≡ value uint64 (doubled (m.word (op_r i 1)))
unfolding eval binary common convert same_type view_value dec_value
doubled_word h m i = refl

digit_same :
    (s s' e e' j x x' : ℕ)
    → s ≡ s'
    → e ≡ e'
    → x ≡ x'
    → (if in_mask s e j then x else 0) ≡ (if in_mask s' e' j then x' else 0)
digit_same s s' e e' j x x' hs he hx = rw (hs, he, hx) refl

-- The lines of a masked rotation, where the digits of the masked value are known.
masked_lines :
    (h : Host) (i : Insn) (w : View) (m : Machine) (e : Expr Ref) (x n start stop : ℕ)
    (digits : ℕ → ℕ)
    → n < 64
    → x < 2 ^ 64
    → eval h m e ≡ value uint64 x
    → ((k : ℕ)
        → k < 64
        → (if in_mask (start % 64) (stop % 64) (63 - k) then bit x ((k + 64 - n) % 64) else 0)
          ≡ digits k)
    → (m' : Machine) × (y : ℕ) × (exec h
          (set
              (op_r i 0)
              u64
              (bin and_bits (bin rotate_left64 e (dec n)) (hex (compute_mask start stop)))
            ∷ compare_dot i w)
          m
        ≡ some m')
      × IsPut (op_r i 0) y m m'
      × ((k : ℕ) → k < 64 → bit y k ≡ digits k)
masked_lines h i w m e x n start stop digits hn fits v same =
    let y = bit_and (rotate_left 64 x n) (compute_mask start stop) in
    let line = bin and_bits (bin rotate_left64 e (dec n)) (hex (compute_mask start stop)) in
    let (m', done, put) = set-IsPut h i w line m y (masked_value h m e x n start stop hn v) in
    (m', y % 2 ^ 64, done, put, λ k hk. masked-bit x n start stop k hn fits hk ∙ same k hk)

-- The destination has the digits of the description, and nothing else has changed but the flags of
-- `cr0`.
pub rotate_lines-digits :
    (h : Host) (op : RotateOp) (i : Insn) (m : Machine)
    → HasRotateFields op i
    → (m' : Machine) × (x : ℕ) × (exec h (rotate_lines op i) m ≡ some m')
      × IsPut (op_r i 0) x m m'
      × ((k : ℕ) → k < 64 → bit x k ≡ rotated_digit op i (m.word (op_r i 1)) k)
unfolding rotate_lines rotate_case HasRotateFields rotated_digit eval view_value
rotate_lines-digits h rldicl i m (hn, hs) =
    let a = m.word (op_r i 1) in
    let from = λ (k : ℕ). (k + 64 - i.operands 2) % 64 in
    masked_lines h i s64 m (r_as i 1 u64) (a % 2 ^ 64) (i.operands 2) (i.operands 3) 63
      (rotated_digit rldicl i a) hn (omega arith) refl
      (λ k hk.
        digit_same (i.operands 3 % 64) (i.operands 3) 63 63 (63 - k) (bit (a % 2 ^ 64) (from k))
          (bit a (from k)) (omega arith) refl (bit-low 64 (from k) a (omega arith)))
rotate_lines-digits h rldicr i m (hn, hs) =
    let a = m.word (op_r i 1) in
    let from = λ (k : ℕ). (k + 64 - i.operands 2) % 64 in
    masked_lines h i s64 m (r_as i 1 u64) (a % 2 ^ 64) (i.operands 2) 0 (i.operands 3)
      (rotated_digit rldicr i a) hn (omega arith) refl
      (λ k hk.
        digit_same 0 0 (i.operands 3 % 64) (i.operands 3) (63 - k) (bit (a % 2 ^ 64) (from k))
          (bit a (from k)) refl (omega arith) (bit-low 64 (from k) a (omega arith)))
rotate_lines-digits h rlwinm i m (hn, hs, he) =
    let a = m.word (op_r i 1) in
    let n = i.operands 2 in
    let start = add32 (i.operands 3) 32 in
    let stop = add32 (i.operands 4) 32 in
    masked_lines h i s32 m (bin or_bits (r_as i 1 u32) (bin shift_left (r_as i 1 u64) (dec 32)))
      (doubled a) n start stop (rotated_digit rlwinm i a) (omega arith) (doubled-lt a)
      (doubled_word h m i)
      (λ k hk.
        digit_same (start % 64) (i.operands 3 + 32) (stop % 64) (i.operands 4 + 32) (63 - k)
          (bit (doubled a) ((k + 64 - n) % 64)) (bit a ((k + 32 - n) % 32)) (omega arith)
          (omega arith)
          (doubled-bit a ((k + 64 - n) % 64) (omega arith) ∙ ap (λ (t : ℕ). bit a t) (omega arith)))
