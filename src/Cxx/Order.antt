-- ===== src/Cxx/Order.antt =====
-- The comparisons: what the printed lines set in a field of the condition register.
use xenon_recomp.Emit.{Ref, crf, xer, Flag, lt, gt, eq, so, Stmt}
use xenon_recomp.Emit.Insn.{
  inst_cmpd, inst_cmpdi, inst_cmpld, inst_cmpldi, inst_cmplw, inst_cmplwi, inst_cmpw, inst_cmpwi,
  Insn, op_r, op_cr,
}
use xenon_recomp.Cxx.{
  CType, int32, uint32, int64, uint64, Value, Host, Machine, sign_extend, convert, modulus,
  less_than, view_value,
}
use xenon_recomp.Cxx.Eval.{dec_value, int_value, eval, put_flag, compare_values, exec_stmt, exec}
use xenon_recomp.Emit.Logic.{compare_case}
use xenon_recomp.Base.{
  ℕ, ◌/◌, ◌%◌, ◌^◌, ◌<◌, ◌≡◌, refl, Bool, true, false, ltb, ◌==◌, if◌then◌else◌, if-cases, arith,
  ==_iff, some, List,
}

pub data CompareOp : Type 0 where
  cmpd cmpdi cmpld cmpldi cmplw cmplwi cmpw cmpwi : CompareOp

unfoldable pub compare_lines : CompareOp → Insn → List (Stmt Ref)
compare_lines cmpd i = compare_case inst_cmpd i
compare_lines cmpdi i = compare_case inst_cmpdi i
compare_lines cmpld i = compare_case inst_cmpld i
compare_lines cmpldi i = compare_case inst_cmpldi i
compare_lines cmplw i = compare_case inst_cmplw i
compare_lines cmplwi i = compare_case inst_cmplwi i
compare_lines cmpw i = compare_case inst_cmpw i
compare_lines cmpwi i = compare_case inst_cmpwi i

-- What the manual compares: whether with signs, below which modulus, and the two values.
pub record Comparison : Type 0 where
  pub signed : Bool
  pub modulus : ℕ
  pub left : ℕ
  pub right : ℕ

unfoldable pub comparison : CompareOp → Insn → Machine → Comparison
unfolding sign_extend
comparison cmpd i m = record {
  signed = true;
  modulus = 2 ^ 64;
  left = m.word (op_r i 1);
  right = m.word (op_r i 2);
}
comparison cmpdi i m = record {
  signed = true;
  modulus = 2 ^ 64;
  left = m.word (op_r i 1);
  right = sign_extend (2 ^ 32) (2 ^ 64) (i.operands 2);
}
comparison cmpld i m = record {
  signed = false;
  modulus = 2 ^ 64;
  left = m.word (op_r i 1);
  right = m.word (op_r i 2);
}
comparison cmpldi i m = record {
  signed = false;
  modulus = 2 ^ 64;
  left = m.word (op_r i 1);
  right = i.operands 2;
}
comparison cmplw i m = record {
  signed = false;
  modulus = 2 ^ 32;
  left = m.word (op_r i 1) % 2 ^ 32;
  right = m.word (op_r i 2) % 2 ^ 32;
}
comparison cmplwi i m = record {
  signed = false;
  modulus = 2 ^ 32;
  left = m.word (op_r i 1) % 2 ^ 32;
  right = i.operands 2;
}
comparison cmpw i m = record {
  signed = true;
  modulus = 2 ^ 32;
  left = m.word (op_r i 1) % 2 ^ 32;
  right = m.word (op_r i 2) % 2 ^ 32;
}
comparison cmpwi i m = record {
  signed = true;
  modulus = 2 ^ 32;
  left = m.word (op_r i 1) % 2 ^ 32;
  right = i.operands 2;
}

-- Whether one value is below another, by their signs first where they have signs.
unfoldable pub below : Bool → ℕ → ℕ → ℕ → Bool
below signed n x y =
    if signed
    then if ltb x (n / 2)
      then if ltb y (n / 2) then ltb x y else false
      else if ltb y (n / 2)
      then true
      else ltb x y
    else ltb x y

abbrev digit : Bool → ℕ
digit b = if b then 1 else 0

-- The flags of the field are the order of the two values and a copy of `xer`'s `so`; the registers,
-- `xer` and the memory are as before.
unfoldable pub IsOrdered : Ref → Comparison → Machine → Machine → Type 0
unfolding below
IsOrdered n c m m' =
    (m'.flags n lt ≡ digit (below c.signed c.modulus c.left c.right))
    × (m'.flags n gt ≡ digit (below c.signed c.modulus c.right c.left))
    × (m'.flags n eq ≡ digit (c.left == c.right))
    × (m'.flags n so ≡ m.flags xer so)
    × ((f : Flag) → m'.flags xer f ≡ m.flags xer f)
    × ((k : Ref) → m'.word k ≡ m.word k)
    × ((p : ℕ) → m'.mem p ≡ m.mem p)

-- `compare<T>` of two values sets the flags to their order.
compare_values-IsOrdered :
    (k : ℕ) (t : CType) (x y x' y' : ℕ) (s : Bool) (m : Machine)
    → x ≡ x'
    → y ≡ y'
    → less_than t x' y' ≡ below s (modulus t) x' y'
    → less_than t y' x' ≡ below s (modulus t) y' x'
    → IsOrdered
        (crf k)
        (record { signed = s; modulus = modulus t; left = x'; right = y' })
        m
        (compare_values (crf k) t x y (m.flags xer so) m)
unfolding IsOrdered compare_values put_flag
compare_values-IsOrdered k t x y x' y' s m ex ey hl hg =
    let e = (==_iff k k).1 refl in
    (
      rw (e, ex, ey, hl) refl,
      rw (e, ex, ey, hg) refl,
      rw (e, ex, ey) refl,
      rw e refl,
      λ f. refl,
      λ n. refl,
      λ p. refl,
    )

signed32 : (x y : ℕ) → x < 2 ^ 32 → y < 2 ^ 32 → less_than int32 x y ≡ below true (2 ^ 32) x y
unfolding less_than below
signed32 x y hx hy = ground arith

signed64 : (x y : ℕ) → x < 2 ^ 64 → y < 2 ^ 64 → less_than int64 x y ≡ below true (2 ^ 64) x y
unfolding less_than below
signed64 x y hx hy = ground arith

-- The values of the literals, in the type that the comparison converts them to.
abbrev as_type : Host → CType → Value → ℕ
as_type h t v = convert h v.type t v.bits

int_as64 :
    (h : Host) (k : ℕ)
    → k < 2 ^ 32
    → as_type h int64 (int_value k) ≡ sign_extend (2 ^ 32) (2 ^ 64) k
unfolding int_value convert sign_extend
int_as64 h k l =
    if-cases (λ (v : Value). as_type h int64 v ≡ sign_extend (2 ^ 32) (2 ^ 64) k) (k == 2 ^ 31)
      (λ e. ground arith) (λ e. refl)

int_as32 : (h : Host) (k : ℕ) → k < 2 ^ 32 → as_type h int32 (int_value k) ≡ k
unfolding int_value convert
int_as32 h k l =
    if-cases (λ (v : Value). as_type h int32 v ≡ k) (k == 2 ^ 31) (λ e. ground arith) (λ e. refl)

dec_as64 : (h : Host) (k : ℕ) → k < 2 ^ 32 → as_type h uint64 (dec_value k) ≡ k
unfolding dec_value convert sign_extend
dec_as64 h k l =
    if-cases (λ (v : Value). as_type h uint64 v ≡ k) (ltb k (2 ^ 31)) (λ e. ground arith)
      (λ e. refl)

dec_as32 : (h : Host) (k : ℕ) → k < 2 ^ 32 → as_type h uint32 (dec_value k) ≡ k
unfolding dec_value convert
dec_as32 h k l =
    if-cases (λ (v : Value). as_type h uint32 v ≡ k) (ltb k (2 ^ 31)) (λ e. refl) (λ e. omega arith)

sign_extend-lt : (k : ℕ) → k < 2 ^ 32 → sign_extend (2 ^ 32) (2 ^ 64) k < 2 ^ 64
unfolding sign_extend
sign_extend-lt k l = ground arith

-- A comparison leaves the field with the order of the manual's two values, whichever of the eight
-- instructions it is and whatever field it names.
pub compare_lines-IsOrdered :
    (h : Host) (op : CompareOp) (i : Insn) (m : Machine)
    → m.word (op_r i 1) < 2 ^ 64
    → m.word (op_r i 2) < 2 ^ 64
    → i.operands 2 < 2 ^ 32
    → (m' : Machine) × (exec h (compare_lines op i) m ≡ some m')
      × IsOrdered (op_cr i 0) (comparison op i m) m m'
unfolding compare_lines comparison compare_case exec exec_stmt eval view_value convert below
compare_lines-IsOrdered h cmpd i m ha hb hi =
    let a = m.word (op_r i 1) in
    let b = m.word (op_r i 2) in
    (
      _,
      refl,
      compare_values-IsOrdered (i.operands 0) int64 (a % 2 ^ 64) (b % 2 ^ 64) a b true m
          (omega arith) (omega arith) (signed64 a b ha hb) (signed64 b a hb ha),
    )
compare_lines-IsOrdered h cmpdi i m ha hb hi =
    let a = m.word (op_r i 1) in
    let k = i.operands 2 in
    let b = sign_extend (2 ^ 32) (2 ^ 64) k in
    let hk = sign_extend-lt k hi in
    (
      _,
      refl,
      compare_values-IsOrdered (i.operands 0) int64 (a % 2 ^ 64) (as_type h int64 (int_value k)) a b
          true m (omega arith) (int_as64 h k hi) (signed64 a b ha hk) (signed64 b a hk ha),
    )
compare_lines-IsOrdered h cmpld i m ha hb hi =
    let a = m.word (op_r i 1) in
    let b = m.word (op_r i 2) in
    (
      _,
      refl,
      compare_values-IsOrdered (i.operands 0) uint64 (a % 2 ^ 64) (b % 2 ^ 64) a b false m
          (omega arith) (omega arith) refl refl,
    )
compare_lines-IsOrdered h cmpldi i m ha hb hi =
    let a = m.word (op_r i 1) in
    let k = i.operands 2 in
    (
      _,
      refl,
      compare_values-IsOrdered (i.operands 0) uint64 (a % 2 ^ 64) (as_type h uint64 (dec_value k)) a
          k false m (omega arith) (dec_as64 h k hi) refl refl,
    )
compare_lines-IsOrdered h cmplw i m ha hb hi =
    let a = m.word (op_r i 1) % 2 ^ 32 in
    let b = m.word (op_r i 2) % 2 ^ 32 in
    (_, refl, compare_values-IsOrdered (i.operands 0) uint32 a b a b false m refl refl refl refl)
compare_lines-IsOrdered h cmplwi i m ha hb hi =
    let a = m.word (op_r i 1) % 2 ^ 32 in
    let k = i.operands 2 in
    (
      _,
      refl,
      compare_values-IsOrdered (i.operands 0) uint32 a (as_type h uint32 (dec_value k)) a k false m
          refl (dec_as32 h k hi) refl refl,
    )
compare_lines-IsOrdered h cmpw i m ha hb hi =
    let a = m.word (op_r i 1) % 2 ^ 32 in
    let b = m.word (op_r i 2) % 2 ^ 32 in
    (
      _,
      refl,
      compare_values-IsOrdered (i.operands 0) int32 a b a b true m refl refl
          (signed32 a b (omega arith) (omega arith)) (signed32 b a (omega arith) (omega arith)),
    )
compare_lines-IsOrdered h cmpwi i m ha hb hi =
    let a = m.word (op_r i 1) % 2 ^ 32 in
    let k = i.operands 2 in
    (
      _,
      refl,
      compare_values-IsOrdered (i.operands 0) int32 a (as_type h int32 (int_value k)) a k true m
          refl (int_as32 h k hi) (signed32 a k (omega arith) hi) (signed32 k a hi (omega arith)),
    )
