-- ===== src/Cxx/StoreLoad.antt =====
-- A load behind a store at the same address reads what was stored, in the guest's byte order.
use xenon_recomp.Emit.{Ref, gpr, same_ref, u32, plus, field, int, bin, Stmt}
use xenon_recomp.Emit.Insn.{
  inst_lbz, inst_ld, inst_lhz, inst_lwz, inst_stb, inst_std, inst_sth, inst_stw, Insn, op_r, r_as,
  d_address,
}
use xenon_recomp.Cxx.{
  uint64, Host, Machine, sign_extend, convert, byte_swap64, load_bits, put32, store_bits, offset,
}
use xenon_recomp.Cxx.Eval.{load_type, eval, set_word, write_view, assign, exec_stmt, exec}
use xenon_recomp.Emit.Loads.{load_case}
use xenon_recomp.Emit.Stores.{store_case}
use xenon_recomp.Base.{
  ℕ, ◌+◌, ◌*◌, ◌/◌, ◌%◌, ◌^◌, ◌<◌, ◌≡◌, ◌∙◌, ap, refl, false, ◌==◌, if◌then◌else◌, if-elim, arith,
  ==_iff, if_true, some, List, ◌++◌,
}
use xenon_recomp.Cxx.Access.{le32-put32, le32-put32_other, le16-put16}
use native.Mathlib.Nat.{one-le-pow}
use xenon_recomp.Emit.Names.{same_ref_refl}
use xenon_recomp.Memory.{Bytes}
use xenon_recomp.Ppc.{byte_swap16, byte_swap32, byte_swap32-lt, byte_swap32-byte_swap32}

pub data Width : Type 0 where
  byte half whole double : Width

abbrev pub width_bits : Width → ℕ
width_bits byte = 8
width_bits half = 16
width_bits whole = 32
width_bits double = 64

swap16_twice : (v : ℕ) → v < 2 ^ 16 → byte_swap16 (byte_swap16 v) ≡ v
unfolding byte_swap16
swap16_twice v h = omega arith

swap16-lt : (v : ℕ) → byte_swap16 v < 2 ^ 16
unfolding byte_swap16
swap16-lt v = omega arith

swap64_halves :
    (lo hi : ℕ)
    → lo < 2 ^ 32
    → byte_swap64 (lo + hi * 2 ^ 32) ≡ byte_swap32 lo * 2 ^ 32 + byte_swap32 hi
unfolding byte_swap64
swap64_halves lo hi h = omega (
  arith,
  ap byte_swap32 {x = (lo + hi * 2 ^ 32) % 2 ^ 32} {y = lo} (omega arith),
  ap byte_swap32 {x = (lo + hi * 2 ^ 32) / 2 ^ 32} {y = hi} (omega arith),
)

swap64_twice : (v : ℕ) → v < 2 ^ 64 → byte_swap64 (byte_swap64 v) ≡ v
unfolding byte_swap64
swap64_twice v h =
    let lo = byte_swap32 (v % 2 ^ 32) in
    let hi = byte_swap32 (v / 2 ^ 32) in
    ap byte_swap64 {x = lo * 2 ^ 32 + hi} {y = hi + lo * 2 ^ 32} (omega arith)
    ∙ swap64_halves hi lo (byte_swap32-lt (v / 2 ^ 32))
    ∙ omega (
      arith,
      byte_swap32-byte_swap32 (v % 2 ^ 32) (omega arith),
      byte_swap32-byte_swap32 (v / 2 ^ 32) (omega arith),
    )

swap64-lt : (v : ℕ) → byte_swap64 v < 2 ^ 64
unfolding byte_swap64
swap64-lt v = omega (arith, byte_swap32-lt (v % 2 ^ 32), byte_swap32-lt (v / 2 ^ 32))

pub load_bits-store_bits :
    (w : Width) (m : Bytes) (p v : ℕ)
    → v < 2 ^ 64
    → load_bits (width_bits w) (store_bits (width_bits w) m p v) p ≡ v % 2 ^ width_bits w
unfolding load_bits store_bits
load_bits-store_bits byte m p v h = if_true (v % 256) (m p) ((==_iff p p).1 refl)
load_bits-store_bits half m p v h =
    ap byte_swap16
      (le16-put16 m p (byte_swap16 (v % 2 ^ 16)) ∙ omega (arith, swap16-lt (v % 2 ^ 16)))
    ∙ swap16_twice (v % 2 ^ 16) (omega arith)
load_bits-store_bits whole m p v h =
    ap byte_swap32
      (le32-put32 m p (byte_swap32 (v % 2 ^ 32)) ∙ omega (arith, byte_swap32-lt (v % 2 ^ 32)))
    ∙ byte_swap32-byte_swap32 (v % 2 ^ 32) (omega arith)
load_bits-store_bits double m p v h =
    let s = byte_swap64 v in
    let first = put32 m p (s % 2 ^ 32) in
    ap byte_swap64 {y = s} (
      omega (
        arith,
        le32-put32_other first p (s / 2 ^ 32),
        le32-put32 m p (s % 2 ^ 32),
        le32-put32 first (p + 4) (s / 2 ^ 32),
        swap64-lt v,
      ))
    ∙ swap64_twice v h
    ∙ omega arith

-- `STB`, `STH`, `STW` and `STD`, and `LBZ`, `LHZ`, `LWZ` and `LD`.
unfoldable pub store_lines : Width → Insn → List (Stmt Ref)
store_lines byte i = store_case false inst_stb i
store_lines half i = store_case false inst_sth i
store_lines whole i = store_case false inst_stw i
store_lines double i = store_case false inst_std i

unfoldable pub load_lines : Width → Insn → List (Stmt Ref)
load_lines byte i = load_case inst_lbz i
load_lines half i = load_case inst_lhz i
load_lines whole i = load_case inst_lwz i
load_lines double i = load_case inst_ld i

-- A load's value as a 64-bit register gets it.
loaded :
    (h : Host) (w : Width) (x : ℕ)
    → x < 2 ^ width_bits w
    → convert h (load_type (width_bits w)) uint64 x % 2 ^ 64 ≡ x
unfolding convert sign_extend
loaded h byte x l = ground arith
loaded h half x l = ground arith
loaded h whole x l = omega arith
loaded h double x l = omega arith

load_after :
    (h : Host) (w : Width) (m : Bytes) (p q v : ℕ)
    → v < 2 ^ 64
    → q ≡ p
    → convert h
          (load_type (width_bits w))
          uint64
          (load_bits (width_bits w) (store_bits (width_bits w) m p v) q)
        % 2 ^ 64
      ≡ v % 2 ^ width_bits w
load_after h w m p q v l same =
    ap (λ (x : ℕ). convert h (load_type (width_bits w)) uint64 x % 2 ^ 64)
      (ap (λ (r : ℕ). load_bits (width_bits w) (store_bits (width_bits w) m p v) r) same
        ∙ load_bits-store_bits w m p v l)
    ∙ loaded h w (v % 2 ^ width_bits w) (omega (arith, one-le-pow (width_bits w) 2))

-- The text of an address does not read the memory, and depends on two operands only.
address_same :
    (h : Host) (i j : Insn) (m : Machine) (b : Bytes)
    → j.operands 1 ≡ i.operands 1
    → j.operands 2 ≡ i.operands 2
    → offset h (eval h (record m { mem = b }) (d_address j 2 1))
      ≡ offset h (eval h m (d_address i 2 1))
unfolding d_address eval
address_same h i j m b h1 h2 =
    if-elim (λ e. offset h (eval h (record m { mem = b }) e) ≡ offset h (eval h m e))
      (j.operands 2 == 0) {x = int (j.operands 1)}
      {y = bin plus (r_as j 2 u32) (int (j.operands 1))} refl refl
    ∙ ap
        (λ (k : ℕ). offset h (
          eval h m (
            if k == 0
            then int (j.operands 1)
            else bin plus (field (gpr k) u32) (int (j.operands 1)))))
        h2
    ∙ ap
        (λ (d : ℕ).
          offset h
            (eval h m (if i.operands 2 == 0 then int d else bin plus (r_as i 2 u32) (int d))))
        h1

load_back :
    (h : Host) (w : Width) (i j : Insn) (m : Machine) (v : ℕ)
    → v < 2 ^ 64
    → j.operands 1 ≡ i.operands 1
    → j.operands 2 ≡ i.operands 2
    → (let p = offset h (eval h m (d_address i 2 1)) in
        let stored = store_bits (width_bits w) m.mem p v in
        convert h (load_type (width_bits w)) uint64 (
            load_bits
              (width_bits w)
              stored
              (offset h (eval h (record m { mem = stored }) (d_address j 2 1))))
          % 2 ^ 64
        ≡ v % 2 ^ width_bits w)
load_back h w i j m v l h1 h2 =
    let p = offset h (eval h m (d_address i 2 1)) in
    load_after h w m.mem p _ v l (address_same h i j m (store_bits (width_bits w) m.mem p v) h1 h2)

-- A store and then a load with the same base register and displacement: the loaded register gets the
-- low bits of the stored one, and no other register changes.
pub load_lines-store_lines :
    (h : Host) (w : Width) (i j : Insn) (m : Machine)
    → m.word (op_r i 0) < 2 ^ 64
    → j.operands 1 ≡ i.operands 1
    → j.operands 2 ≡ i.operands 2
    → (m' : Machine) × (exec h (store_lines w i ++ load_lines w j) m ≡ some m')
      × (m'.word (op_r j 0) ≡ m.word (op_r i 0) % 2 ^ width_bits w)
      × ((n : Ref) → same_ref (op_r j 0) n ≡ false → m'.word n ≡ m.word n)
unfolding exec store_lines load_lines store_case load_case exec_stmt eval assign set_word write_view
load_lines-store_lines h byte i j m hv h1 h2 =
    let back = load_back h byte i j m (m.word (op_r i 0) % 2 ^ 8) (omega arith) h1 h2 in
    (
      _,
      refl,
      if_true _ (m.word (op_r j 0)) (same_ref_refl (op_r j 0)) ∙ back ∙ omega arith,
      λ n e. rw e refl,
    )
load_lines-store_lines h half i j m hv h1 h2 =
    let back = load_back h half i j m (m.word (op_r i 0) % 2 ^ 16) (omega arith) h1 h2 in
    (
      _,
      refl,
      if_true _ (m.word (op_r j 0)) (same_ref_refl (op_r j 0)) ∙ back ∙ omega arith,
      λ n e. rw e refl,
    )
load_lines-store_lines h whole i j m hv h1 h2 =
    let back = load_back h whole i j m (m.word (op_r i 0) % 2 ^ 32) (omega arith) h1 h2 in
    (
      _,
      refl,
      if_true _ (m.word (op_r j 0)) (same_ref_refl (op_r j 0)) ∙ back ∙ omega arith,
      λ n e. rw e refl,
    )
load_lines-store_lines h double i j m hv h1 h2 =
    let back = load_back h double i j m (m.word (op_r i 0) % 2 ^ 64) (omega arith) h1 h2 in
    (
      _,
      refl,
      if_true _ (m.word (op_r j 0)) (same_ref_refl (op_r j 0)) ∙ back ∙ omega arith,
      λ n e. rw e refl,
    )
