-- ===== src/Cxx/Carry.antt =====
-- The sums and differences with a carry: what the printed lines compute.
use xenon_recomp.Emit.{
  Ref, xer, temp, same_ref, View, s32, u32, u64, ca, plus, shift_right, field, flag, dec, hex, bin,
  Stmt, set, set_flag,
}
use xenon_recomp.Emit.Insn.{
  inst_addc, inst_adde, inst_addic, inst_addme, inst_addze, inst_subfc, inst_subfe, inst_subfic,
  Insn, op_r, r_as, compare_dot,
}
use xenon_recomp.Cxx.{
  Host, Machine, sign_extend, convert, common, less_than, shifted_right, same_type, binary, unary,
  view_value,
}
use xenon_recomp.Cxx.Eval.{
  dec_value, hex_value, int_value, eval, set_word, put_flag, write_view, assign, assign_flag,
  compare_values, exec_stmt, exec,
}
use xenon_recomp.Emit.Arith.{add_case, subtract_case}
use xenon_recomp.Base.{
  ◌∷◌, ℕ, ◌+◌, ◌-◌, ◌/◌, ◌%◌, ◌^◌, ◌<◌, ◌≡◌, refl, ◌∙◌, Bool, true, false, ltb, if◌then◌else◌,
  if-elim, some, List, arith, bit_or,
}

-- The instructions that add, or subtract, with a carry.
pub data CarryOp : Type 0 where
  addc adde addic addze subfc subfe subfic : CarryOp

unfoldable pub carry_lines : CarryOp → Insn → List (Stmt Ref)
carry_lines addc i = add_case inst_addc i
carry_lines adde i = add_case inst_adde i
carry_lines addic i = add_case inst_addic i
carry_lines addze i = add_case inst_addze i
carry_lines subfc i = subtract_case inst_subfc i
carry_lines subfe i = subtract_case inst_subfe i
carry_lines subfic i = subtract_case inst_subfic i

-- The two numbers and the carry that the manual's description of the instruction adds: a difference
-- adds the complement of the first register.
abbrev immediate : Insn → ℕ
immediate i = sign_extend (2 ^ 32) (2 ^ 64) (i.operands 2)

abbrev complement64 : ℕ → ℕ
complement64 x = 2 ^ 64 - 1 - x

unfoldable pub addends : CarryOp → Insn → Machine → ℕ × ℕ × ℕ
unfolding sign_extend
addends addc i m = (m.word (op_r i 1), m.word (op_r i 2), 0)
addends adde i m = (m.word (op_r i 1), m.word (op_r i 2), m.flags xer ca)
addends addic i m = (m.word (op_r i 1), immediate i, 0)
addends addze i m = (m.word (op_r i 1), 0, m.flags xer ca)
addends subfc i m = (complement64 (m.word (op_r i 1)), m.word (op_r i 2), 1)
addends subfe i m = (complement64 (m.word (op_r i 1)), m.word (op_r i 2), m.flags xer ca)
addends subfic i m = (complement64 (m.word (op_r i 1)), immediate i, 1)

-- The destination has the 64-bit sum, `ca` the carry out of its low 32 bits, and nothing else has
-- changed but `temp` and the flags.
unfoldable pub IsSum : Ref → ℕ × ℕ × ℕ → Machine → Machine → Type 0
IsSum d xyc m m' =
    (m'.word d ≡ (xyc.0 + xyc.1 + xyc.2) % 2 ^ 64)
    × (m'.flags xer ca ≡ (xyc.0 % 2 ^ 32 + xyc.1 % 2 ^ 32 + xyc.2) / 2 ^ 32)
    × ((n : Ref) → same_ref d n ≡ false → same_ref temp n ≡ false → m'.word n ≡ m.word n)
    × ((p : ℕ) → m'.mem p ≡ m.mem p)

-- The comparison behind an instruction with a dot changes none of that.
compare_dot-IsSum :
    (h : Host) (i : Insn) (w : View) (d : Ref) (s : ℕ × ℕ × ℕ) (m m1 : Machine)
    → IsSum d s m m1
    → (m' : Machine) × (exec h (compare_dot i w) m1 ≡ some m') × IsSum d s m m'
unfolding compare_dot IsSum exec exec_stmt compare_values put_flag
compare_dot-IsSum h i w d s m m1 sum =
    if-elim (λ ss. (m' : Machine) × (exec h ss m1 ≡ some m') × IsSum d s m m') i.dot (_, refl, sum)
      (m1, refl, sum)

or_ints :
    (p q : Bool)
    → bit_or (if p then 1 else 0) (if q then 1 else 0) ≡ (if p then 1 else if q then 1 else 0)
or_ints true true = refl
or_ints true false = refl
or_ints false true = refl
or_ints false false = refl

-- The printed test finds the carry out of a 32-bit sum with a carry in.
carry_test :
    (x y c : ℕ)
    → x < 2 ^ 32
    → y < 2 ^ 32
    → c < 2
    → bit_or
        (if ltb ((x + y) % 2 ^ 32) x then 1 else 0)
        (if ltb (((x + y) % 2 ^ 32 + c) % 2 ^ 32) c then 1 else 0)
      ≡ (x + y + c) / 2 ^ 32
carry_test x y c hx hy hc =
    or_ints (ltb ((x + y) % 2 ^ 32) x) (ltb (((x + y) % 2 ^ 32 + c) % 2 ^ 32) c) ∙ ground arith

-- The values that registers and the carry can have.
abbrev pub Valid : Insn → Machine → Type 0
Valid i m =
    (m.word (op_r i 1) < 2 ^ 64)
    × (m.word (op_r i 2) < 2 ^ 64)
    × (m.flags xer ca < 2)
    × (i.operands 2 < 2 ^ 32)

pub carry_lines-IsSum :
    (h : Host) (op : CarryOp) (i : Insn) (m : Machine)
    → Valid i m
    → (m' : Machine) × (exec h (carry_lines op i) m ≡ some m')
      × IsSum (op_r i 0) (addends op i m) m m'
unfolding carry_lines exec add_case subtract_case exec_stmt eval assign assign_flag put_flag
    set_word same_ref view_value binary unary same_type common convert less_than write_view IsSum
    addends sign_extend int_value dec_value
carry_lines-IsSum h addc i m (ha, hb, hc, hi) =
    compare_dot-IsSum h i s32 (op_r i 0) _ m _
      (ground arith, ground arith, λ n e f. rw (e, f) refl, λ p. refl)
carry_lines-IsSum h adde i m (ha, hb, hc, hi) = compare_dot-IsSum h i s32 (op_r i 0) _ m _ (
  ground arith,
  rw
      (carry_test (m.word (op_r i 1) % 2 ^ 32) (m.word (op_r i 2) % 2 ^ 32) (m.flags xer ca)
        (omega arith) (omega arith) hc)
      (ground arith),
  λ n e f. rw (e, f) refl,
  λ p. refl,
)
carry_lines-IsSum h addic i m (ha, hb, hc, hi) =
    compare_dot-IsSum h i s32 (op_r i 0) _ m _
      (ground arith, ground arith, λ n e f. rw e refl, λ p. refl)
carry_lines-IsSum h addze i m (ha, hb, hc, hi) =
    compare_dot-IsSum h i s32 (op_r i 0) _ m _
      (ground arith, ground arith, λ n e f. rw (e, f) refl, λ p. refl)
carry_lines-IsSum h subfc i m (ha, hb, hc, hi) =
    compare_dot-IsSum h i s32 (op_r i 0) _ m _
      (ground arith, ground arith, λ n e f. rw e refl, λ p. refl)
carry_lines-IsSum h subfe i m (ha, hb, hc, hi) = compare_dot-IsSum h i s32 (op_r i 0) _ m _ (
  ground arith,
  rw
      (carry_test (2 ^ 32 - 1 - m.word (op_r i 1) % 2 ^ 32) (m.word (op_r i 2) % 2 ^ 32)
        (m.flags xer ca) (omega arith) (omega arith) hc)
      (ground arith),
  λ n e f. rw (e, f) refl,
  λ p. refl,
)
carry_lines-IsSum h subfic i m (ha, hb, hc, hi) =
    (_, refl, (ground arith, ground arith, λ n e f. rw e refl, λ p. refl))

-- `ADDME` sets the low word of the sum and clears `ca`, although the carry out of the low 32 bits is
-- one unless register and carry are both zero: the printed sum is 32 bits wide, so nothing is left of
-- it above them.
pub addme_lines-carry :
    (h : Host) (i : Insn) (m : Machine)
    → m.flags xer ca < 2
    → (m' : Machine) × (exec h (add_case inst_addme i) m ≡ some m')
      × (m'.word (op_r i 0) ≡ (m.word (op_r i 1) % 2 ^ 32 + m.flags xer ca + (2 ^ 32 - 1)) % 2 ^ 32)
      × (m'.flags xer ca ≡ 0)
unfolding exec add_case exec_stmt eval assign assign_flag put_flag set_word same_ref view_value
    binary same_type common convert write_view hex_value dec_value shifted_right compare_dot
    compare_values
addme_lines-carry h i m hc =
    if-elim
      (λ ss.
        (m' : Machine) × (exec h
            (set temp u64 (bin plus (bin plus (r_as i 1 u32) (flag xer ca)) (hex 0xFFFFFFFF))
              ∷ set_flag xer ca (bin shift_right (field temp u64) (dec 32))
              ∷ set (op_r i 0) u64 (field temp u32)
              ∷ ss)
            m
          ≡ some m')
        × (m'.word (op_r i 0)
            ≡ (m.word (op_r i 1) % 2 ^ 32 + m.flags xer ca + (2 ^ 32 - 1)) % 2 ^ 32)
        × (m'.flags xer ca ≡ 0))
      i.dot (_, refl, ground arith, ground arith) (_, refl, ground arith, ground arith)
