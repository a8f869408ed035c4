-- ===== src/Cxx/Eval.antt =====
-- The values of expressions and the effects of lines.
use xenon_recomp.Emit.{
  Ref, ea, link, msr, same_ref, View, s32, u32, s64, u64, f64, Flag, lt, gt, eq, so, ov, ca, Expr,
  name, field, flag, dec, hex, int, long_max, int_max, rdtsc, from_host, bin, un, cast, pick, load,
  raw_load, swap_if, Stmt, set, set_flag, set_name, or_with, decrement, compare, store, clear_line,
  when, comment, location,
}
use xenon_recomp.Cxx.{
  CType, int32, uint32, int64, uint64, float64, Value, Host, Machine, as_int, convert, common,
  less_than, value, binary, unary, view_value, view_type, view_modulus, load_bits, put32,
  store_bits, offset,
}
use xenon_recomp.Base.{
  ℕ, ◌+◌, ◌-◌, ◌*◌, ◌/◌, ◌%◌, ◌^◌, Bool, true, false, not, ltb, ◌==◌, if◌then◌else◌, ◌&&◌, Option,
  none, some, List, [], ◌∷◌, ◌>>=◌, bit_or,
}
use xenon_recomp.Memory.{Bytes, le32, fill}

abbrev pub load_type : ℕ → CType
load_type w = if w == 64 then uint64 else if w == 32 then uint32 else int32

-- A number as the text `{}` or `0x{:X}` writes it: the first type that it fits.
unfoldable pub dec_value : ℕ → Value
dec_value k = if ltb k (2 ^ 31) then value int32 k else value int64 k

unfoldable pub hex_value : ℕ → Value
hex_value k =
    if ltb k (2 ^ 31)
    then value int32 k
    else if ltb k (2 ^ 32)
    then value uint32 k
    else if ltb k (2 ^ 63)
    then value int64 k
    else value uint64 k

-- An `int32_t` of these bits, written with its sign: the digits of the least one are a `long`.
unfoldable pub int_value : ℕ → Value
int_value k = if k == 2 ^ 31 then value int64 (2 ^ 64 - 2 ^ 31) else value int32 k

-- A name by itself: `ea` is a `uint32_t`, `ctx.msr` too, and `ctx.lr` a `uint64_t`.
unfoldable pub name_value : Ref → ℕ → Value
name_value link x = value uint64 x
name_value ea x = value uint32 x
name_value msr x = value uint32 x
name_value n x = value uint64 x

unfoldable pub pick_value : Host → Bool → Value → Value → Value
unfolding common convert
pick_value h c a b =
    let t = common a.type b.type in
    value t (if c then convert h a.type t a.bits else convert h b.type t b.bits)

-- A plain read of 32 or 64 bits.
unfoldable pub raw_bits : ℕ → Bytes → ℕ → ℕ
unfolding le32
raw_bits w m p = if w == 32 then le32 m p else le32 m p + le32 m (p + 4) * 2 ^ 32

unfoldable pub eval : Host → Machine → Expr Ref → Value
unfolding dec_value hex_value int_value name_value pick_value binary unary view_value load_bits
    raw_bits convert
eval h m (name n) = name_value n (m.word n)
eval h m (field n w) = view_value w (m.word n)
eval h m (flag n f) = value int32 (m.flags n f)
eval h m (dec k) = dec_value k
eval h m (hex k) = hex_value k
eval h m (int k) = int_value k
eval h m (bin op a b) = binary h op (eval h m a) (eval h m b)
eval h m (un op a) = unary h op (eval h m a)
eval h m (cast w a) = let v = eval h m a in view_value w (convert h v.type (view_type w) v.bits)
eval h m (pick c a b) = pick_value h (not (Value.bits (eval h m c) == 0)) (eval h m a) (eval h m b)
eval h m (load w a) = value (load_type w) (load_bits w m.mem (offset h (eval h m a)))
eval h m (raw_load w a) = value (load_type w) (raw_bits w m.mem (offset h (eval h m a)))
eval h m (swap_if w a b c) =
    as_int (raw_bits w m.mem (offset h (eval h m a)) == Value.bits (eval h m b))
eval h m long_max = value int64 (2 ^ 63 - 1)
eval h m int_max = value int32 (2 ^ 31 - 1)
eval h m rdtsc = value uint64 (h.read rdtsc)
eval h m from_host = value uint32 (h.read from_host)
eval h m e = value float64 (h.read e)

unfoldable pub set_word : Ref → ℕ → Machine → Machine
unfolding same_ref
set_word n x m = record m { word = λ k. if same_ref n k then x else m.word k }

abbrev same_flag : Flag → Flag → Bool
same_flag lt lt = true
same_flag gt gt = true
same_flag eq eq = true
same_flag so so = true
same_flag ov ov = true
same_flag ca ca = true
same_flag _ _ = false

unfoldable pub put_flag : Ref → Flag → ℕ → Machine → Machine
unfolding same_ref
put_flag n f x m = record m {
  flags = λ k g. if same_ref n k && same_flag f g then x else m.flags k g;
}

-- An assignment to a member of the union leaves the bytes above it.
unfoldable pub write_view : View → ℕ → ℕ → ℕ
write_view s64 old x = x % 2 ^ 64
write_view u64 old x = x % 2 ^ 64
write_view f64 old x = x % 2 ^ 64
write_view w old x = old - old % view_modulus w + x % view_modulus w

unfoldable pub assign : Host → Ref → View → Value → Machine → Machine
unfolding set_word write_view convert
assign h n w v m = set_word n (write_view w (m.word n) (convert h v.type (view_type w) v.bits)) m

-- An assignment to a name by itself, a whole register where it is none of the three.
unfoldable pub assign_name : Host → Ref → Value → Machine → Machine
unfolding set_word convert
assign_name h link v m = set_word link (convert h v.type uint64 v.bits) m
assign_name h ea v m = set_word ea (convert h v.type uint64 v.bits % 2 ^ 32) m
assign_name h msr v m = set_word msr (convert h v.type uint64 v.bits % 2 ^ 32) m
assign_name h n v m = set_word n v.bits m

-- A flag is a `uint8_t`.
unfoldable pub assign_flag : Ref → Flag → Value → Machine → Machine
unfolding put_flag
assign_flag n f v m = put_flag n f (v.bits % 256) m

-- `PPCCRRegister::compare<T>` of two values of `T`.
unfoldable pub compare_values : Ref → CType → ℕ → ℕ → ℕ → Machine → Machine
unfolding put_flag less_than
compare_values n t x y overflow m = put_flag n so overflow (
    put_flag n eq (if x == y then 1 else 0) (
      put_flag n gt (if less_than t y x then 1 else 0)
        (put_flag n lt (if less_than t x y then 1 else 0) m)))

abbrev int_type : View → CType
int_type s32 = int32
int_type u32 = uint32
int_type s64 = int64
int_type _ = uint64

unfoldable pub exec_stmt : Host → Stmt Ref → Machine → Option Machine
unfolding eval assign assign_name assign_flag compare_values store_bits convert fill set_word
exec_stmt h (set n w e) m = some (assign h n w (eval h m e) m)
exec_stmt h (set_flag n f (swap_if w a b c)) m =
    let p = offset h (eval h m a) in
    let done = assign_flag n f (eval h m (swap_if w a b c)) m in
    let hit = raw_bits w m.mem p == Value.bits (eval h m b) in
    let raw = Value.bits (eval h m c) in
    some (record done {
      mem =
          if hit
          then (if w == 32
              then put32 m.mem p raw
              else put32 (put32 m.mem p (raw % 2 ^ 32)) (p + 4) (raw / 2 ^ 32))
          else m.mem;
    })
exec_stmt h (set_flag n f e) m = some (assign_flag n f (eval h m e) m)
exec_stmt h (set_name n e) m = some (assign_name h n (eval h m e) m)
exec_stmt h (or_with n w e) m =
    let v = eval h m e in
    some (assign h n w (value uint64 (bit_or (m.word n) (convert h v.type uint64 v.bits))) m)
exec_stmt h (decrement n) m = some (set_word n ((m.word n + 2 ^ 64 - 1) % 2 ^ 64) m)
exec_stmt h (compare n w a b x) m =
    let t = int_type w in
    let u = eval h m a in
    let v = eval h m b in
    some
      (compare_values n t (convert h u.type t u.bits) (convert h v.type t v.bits) (m.flags x so) m)
exec_stmt h (store direct w a e) m =
    some (record m { mem = store_bits w m.mem (offset h (eval h m a)) (Value.bits (eval h m e)) })
exec_stmt h (clear_line a k) m =
    let p = Value.bits (eval h m a) in some (record m { mem = fill 0 (p - p % k) k m.mem })
exec_stmt h (when c s) m =
    let done = exec_stmt h s m in if Value.bits (eval h m c) == 0 then some m else done
exec_stmt h (comment k) m = some m
exec_stmt h (location a) m = some m
exec_stmt h s m = none

-- Lines in their order; none where one of them leaves the sequence.
unfoldable pub exec : Host → List (Stmt Ref) → Machine → Option Machine
unfolding exec_stmt
exec h [] m = some m
exec h (s ∷ ss) m = exec_stmt h s m >>= exec h ss
