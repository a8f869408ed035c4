-- ===== src/Cxx/Put.antt =====
-- A line that gives a register a 64-bit value, with the comparison behind it.
use xenon_recomp.Emit.{Ref, xer, same_ref, View, u64, Flag, and_bits, rotate_left64, Expr, set}
use xenon_recomp.Emit.Insn.{Insn, op_r, compare_dot}
use xenon_recomp.Cxx.{
  uint64, Value, Host, Machine, sign_extend, convert, common, rotate_left, value, same_type, binary,
}
use xenon_recomp.Cxx.Eval.{
  dec_value, hex_value, eval, set_word, put_flag, write_view, assign, compare_values, exec_stmt,
  exec,
}
use xenon_recomp.Emit.Names.{same_ref_refl}
use xenon_recomp.Base.{
  ℕ, ◌-◌, ◌+◌, ◌%◌, ◌^◌, ◌<◌, ◌≡◌, refl, ap, false, ltb, if-elim, if-cases, if_true, bit_and, some,
  ◌∷◌,
}

-- The register has the value, and nothing else has changed but the flags of `cr0`.
unfoldable pub IsPut : Ref → ℕ → Machine → Machine → Type 0
IsPut d x m m' =
    (m'.word d ≡ x)
    × ((n : Ref) → same_ref d n ≡ false → m'.word n ≡ m.word n)
    × ((f : Flag) → m'.flags xer f ≡ m.flags xer f)
    × ((p : ℕ) → m'.mem p ≡ m.mem p)

pub compare_dot-IsPut :
    (h : Host) (i : Insn) (w : View) (d : Ref) (x : ℕ) (m m1 : Machine)
    → IsPut d x m m1
    → (m' : Machine) × (exec h (compare_dot i w) m1 ≡ some m') × IsPut d x m m'
unfolding compare_dot IsPut exec exec_stmt compare_values put_flag
compare_dot-IsPut h i w d x m m1 put =
    if-elim (λ ss. (m' : Machine) × (exec h ss m1 ≡ some m') × IsPut d x m m') i.dot (_, refl, put)
      (m1, refl, put)

set_word-IsPut : (d : Ref) (x : ℕ) (m : Machine) → IsPut d x m (set_word d x m)
unfolding IsPut set_word
set_word-IsPut d x m = (rw (same_ref_refl d) refl, λ n e. rw e refl, λ f. refl, λ p. refl)

-- `{}.u64 = ..;` of a 64-bit value, and the comparison.
pub set-IsPut :
    (h : Host) (i : Insn) (w : View) (e : Expr Ref) (m : Machine) (x : ℕ)
    → eval h m e ≡ value uint64 x
    → (m' : Machine) × (exec h (set (op_r i 0) u64 e ∷ compare_dot i w) m ≡ some m')
      × IsPut (op_r i 0) (x % 2 ^ 64) m m'
unfolding exec exec_stmt assign convert write_view
set-IsPut h i w e m x v =
    rw v (
      compare_dot-IsPut h i w (op_r i 0) (x % 2 ^ 64) m _
        (set_word-IsPut (op_r i 0) (x % 2 ^ 64) m))

-- The value of a hexadecimal literal among 64-bit values.
pub and_hex :
    (h : Host) (x k : ℕ)
    → k < 2 ^ 64
    → binary h and_bits (value uint64 x) (hex_value k) ≡ value uint64 (bit_and x k)
unfolding binary common convert same_type hex_value sign_extend
and_hex h x k fits =
    if-cases (λ (v : Value). binary h and_bits (value uint64 x) v ≡ value uint64 (bit_and x k))
      (ltb k (2 ^ 31))
      (λ e. ap (λ (t : ℕ). value uint64 (bit_and x t)) (if_true k (k + 2 ^ 64 - 2 ^ 32) e))
      (λ e.
        if-elim (λ (v : Value). binary h and_bits (value uint64 x) v ≡ value uint64 (bit_and x k))
          (ltb k (2 ^ 32)) refl
          (if-elim
            (λ (v : Value). binary h and_bits (value uint64 x) v ≡ value uint64 (bit_and x k))
            (ltb k (2 ^ 63)) refl refl))

-- A rotation of a 64-bit value by a small literal.
pub rotate_dec :
    (h : Host) (x n : ℕ)
    → n < 64
    → binary h rotate_left64 (value uint64 x) (dec_value n) ≡ value uint64 (rotate_left 64 x n)
unfolding binary common convert dec_value sign_extend
rotate_dec h x n small =
    if-cases
      (λ (v : Value). binary h rotate_left64 (value uint64 x) v ≡ value uint64 (rotate_left 64 x n))
      (ltb n (2 ^ 31))
      (λ e. ap (λ (t : ℕ). value uint64 (rotate_left 64 x t)) (if_true n (n + 2 ^ 64 - 2 ^ 32) e))
      (λ e. refl)
