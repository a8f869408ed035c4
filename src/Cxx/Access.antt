-- ===== src/Cxx/Access.antt =====
-- The addresses of loads and stores, and a load behind a store.
use xenon_recomp.Emit.{u32, plus, int, bin}
use xenon_recomp.Emit.Insn.{Insn, op_r, r_as, d_address, x_address}
use xenon_recomp.Cxx.{
  int32, int64, Value, Host, Machine, sign_extend, convert, common, value, same_type, binary,
  view_value, put16, put32, offset,
}
use xenon_recomp.Cxx.Eval.{int_value, eval}
use xenon_recomp.Base.{
  ℕ, ◌-◌, ◌+◌, ◌%◌, ◌^◌, ◌<◌, ◌≤◌, ◌≡◌, ◌≢◌, ◌∙◌, ◌⊎◌, ◌↔◌, inl, inr, ap, sym, ltb, ◌==◌,
  if◌then◌else◌, if-cases, arith, ==_iff, if_false, if_true, ℕ_discrete,
}
use xenon_recomp.Memory.{Bytes, le16, le32}

-- The effective address of the manual: the base register, or zero where its number is 0, plus the
-- displacement or the index, modulo 2 ^ 32.
abbrev base_or_zero : Insn → ℕ → Machine → ℕ
base_or_zero i k m = if i.operands k == 0 then 0 else m.word (op_r i k)

unfoldable pub d_effective : Insn → ℕ → ℕ → Machine → ℕ
d_effective i a d m = (base_or_zero i a m + i.operands d) % 2 ^ 32

unfoldable pub x_effective : Insn → ℕ → ℕ → Machine → ℕ
x_effective i a b m = (base_or_zero i a m + m.word (op_r i b)) % 2 ^ 32

-- A 16-bit displacement, sign-extended to 32 bits.
abbrev pub IsDisplacement : ℕ → Type 0
IsDisplacement d = (d < 2 ^ 15) ⊎ ((2 ^ 32 - 2 ^ 15 ≤ d) × (d < 2 ^ 32))

int_displacement : (d : ℕ) → IsDisplacement d → int_value d ≡ value int32 d
unfolding int_value
int_displacement d r = if_false (value int64 (2 ^ 64 - 2 ^ 31)) (value int32 d) (ground arith)

-- The two texts of a D-form address, as offsets from `base`.
with_base :
    (h : Host) (m : Machine) (i : Insn) (a d : ℕ)
    → IsDisplacement (i.operands d)
    → offset h (eval h m (bin plus (r_as i a u32) (int (i.operands d))))
      ≡ (m.word (op_r i a) + i.operands d) % 2 ^ 32
unfolding eval binary common convert same_type view_value
with_base h m i a d r =
    ap (λ (v : Value). offset h (binary h plus (view_value u32 (m.word (op_r i a))) v))
      (int_displacement (i.operands d) r)
    ∙ omega arith

without_base :
    (h : Host) (m : Machine) (d : ℕ)
    → IsDisplacement d
    → offset h (eval h m (int d)) ≡ (if ltb d (2 ^ 31) then d else d + 2 ^ 64 - 2 ^ 32)
unfolding eval convert sign_extend
without_base h m d r = ap (λ (v : Value). offset h v) (int_displacement d r)

d_offset_zero :
    (h : Host) (i : Insn) (a d : ℕ) (m : Machine)
    → IsDisplacement (i.operands d)
    → i.operands a ≡ 0
    → offset h (eval h m (d_address i a d))
      ≡ (if ltb (i.operands d) (2 ^ 31) then i.operands d else i.operands d + 2 ^ 64 - 2 ^ 32)
unfolding d_address
d_offset_zero h i a d m r z =
    ap (λ e. offset h (eval h m e))
      (if_true (int (i.operands d)) (bin plus (r_as i a u32) (int (i.operands d)))
        ((==_iff (i.operands a) 0).1 z))
    ∙ without_base h m (i.operands d) r

d_offset_nonzero :
    (h : Host) (i : Insn) (a d : ℕ) (m : Machine)
    → IsDisplacement (i.operands d)
    → i.operands a ≢ 0
    → offset h (eval h m (d_address i a d)) ≡ (m.word (op_r i a) + i.operands d) % 2 ^ 32
unfolding d_address
d_offset_nonzero h i a d m r z =
    ap (λ e. offset h (eval h m e))
      (if_false (int (i.operands d)) (bin plus (r_as i a u32) (int (i.operands d))) (ground arith))
    ∙ with_base h m i a d r

-- A D-form address is the manual's exactly where there is a base register or the displacement is
-- not negative: with no base register, a negative displacement is an offset in front of the guest's
-- memory.
pub d_address_iff :
    (h : Host) (i : Insn) (a d : ℕ) (m : Machine)
    → IsDisplacement (i.operands d)
    → (offset h (eval h m (d_address i a d)) ≡ d_effective i a d m)
      ↔ ((i.operands a ≢ 0) ⊎ (i.operands d < 2 ^ 15))
unfolding d_effective
d_address_iff h i a d m r = elim (ℕ_discrete (i.operands a) 0) [
  | yes z ↦
      let e = d_offset_zero h i a d m r z in
      (
        λ q. inr (ground (arith, sym e ∙ q)),
        λ s. e ∙ elim s [ inl n ↦ absurd (n z) | inr l ↦ ground arith ],
      )
  | no n ↦ (λ q. inl n, λ s. d_offset_nonzero h i a d m r n ∙ ground arith)
]

-- An X-form address is the manual's.
pub x_address-x_effective :
    (h : Host) (i : Insn) (a b : ℕ) (m : Machine)
    → offset h (eval h m (x_address i a b)) ≡ x_effective i a b m
unfolding x_address x_effective eval binary common convert same_type view_value
x_address-x_effective h i a b m =
    if-cases (λ e. offset h (eval h m e) ≡ x_effective i a b m) (i.operands a == 0)
      (λ z. ground arith) (λ z. ground arith)

pub le32-put32 : (m : Bytes) (p v : ℕ) → le32 (put32 m p v) p ≡ v % 2 ^ 32
unfolding le32 put32 put16
le32-put32 m p v = ground arith

-- A store behind the four bytes does not change them.
pub le32-put32_other : (m : Bytes) (p v : ℕ) → le32 (put32 m (p + 4) v) p ≡ le32 m p
unfolding le32 put32 put16
le32-put32_other m p v = ground arith

pub le16-put16 : (m : Bytes) (p v : ℕ) → le16 (put16 m p v) p ≡ v % 2 ^ 16
unfolding le16 put16
le16-put16 m p v = ground arith
