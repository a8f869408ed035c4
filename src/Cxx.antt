-- ===== src/Cxx.antt =====
-- What the printed C++ computes, on a little-endian host with 32-bit `int` and 64-bit `long`: integer
-- types with their promotions, the unions and macros of `XenonUtils/ppc_context.h`, and the lines
-- without control flow. Operations of the host's floating-point unit are parameters.
pub mod Eval
pub mod Carry
pub mod Access
pub mod Order
pub mod StoreLoad
pub mod Put
pub mod Rotate
use xenon_recomp.Emit.{
  Ref, View, s8, u8, s16, u16, s32, u32, s64, u64, f32, f64, Flag, BinOp, plus, minus, times,
  and_bits, or_bits, xor_bits, shift_left, shift_right, less, greater, less_eq, greater_eq, equal,
  differs, both, rotate_left32, rotate_left64, UnOp, complement, negate, falsify, swap16, swap32,
  swap64, Expr,
}
use xenon_recomp.Base.{
  ℕ, ◌+◌, ◌-◌, ◌*◌, ◌/◌, ◌%◌, ◌^◌, Bool, not, ◌&&◌, ltb, ◌==◌, if◌then◌else◌, ◌>>=◌, bit_and,
  bit_or, bit_xor,
}
use xenon_recomp.Memory.{Bytes, le16, le32}
use xenon_recomp.Ppc.{byte_swap16, byte_swap32}

pub data CType : Type 0 where
  int32 uint32 int64 uint64 float32 float64 : CType

-- A value as its bits, in two's complement.
pub record Value : Type 0 where
  pub type : CType
  pub bits : ℕ

-- The host's operations on bits of floating-point values, conversions and instructions.
pub record Host : Type 0 where
  pub binary : BinOp → CType → ℕ → ℕ → ℕ
  pub unary : UnOp → CType → ℕ → ℕ
  pub convert : CType → CType → ℕ → ℕ
  pub read : Expr Ref → ℕ

-- The registers by name, the flags of `xer` and of the condition register, and the guest's memory.
pub record Machine : Type 0 where
  pub word : Ref → ℕ
  pub flags : Ref → Flag → ℕ
  pub mem : Bytes

abbrev pub as_int : Bool → Value
as_int b = record { type = int32; bits = if b then 1 else 0 }

-- Sign extension from `2 ^ n` values to `2 ^ w`, given as moduli.
unfoldable pub sign_extend : ℕ → ℕ → ℕ → ℕ
sign_extend small large x = if ltb x (small / 2) then x else x + large - small

-- The bits of an integer in another integer type.
unfoldable pub convert : Host → CType → CType → ℕ → ℕ
unfolding sign_extend
convert h int32 int32 x = x
convert h int32 uint32 x = x
convert h int32 int64 x = sign_extend (2 ^ 32) (2 ^ 64) x
convert h int32 uint64 x = sign_extend (2 ^ 32) (2 ^ 64) x
convert h uint32 int32 x = x
convert h uint32 uint32 x = x
convert h uint32 int64 x = x
convert h uint32 uint64 x = x
convert h int64 int32 x = x % 2 ^ 32
convert h int64 uint32 x = x % 2 ^ 32
convert h int64 int64 x = x
convert h int64 uint64 x = x
convert h uint64 int32 x = x % 2 ^ 32
convert h uint64 uint32 x = x % 2 ^ 32
convert h uint64 int64 x = x
convert h uint64 uint64 x = x
convert h s t x = h.convert s t x

-- The usual arithmetic conversions.
unfoldable pub common : CType → CType → CType
common float64 t = float64
common t float64 = float64
common float32 t = float32
common t float32 = float32
common uint64 t = uint64
common t uint64 = uint64
common int64 t = int64
common t int64 = int64
common uint32 t = uint32
common t uint32 = uint32
common int32 int32 = int32

abbrev pub modulus : CType → ℕ
modulus int32 = 2 ^ 32
modulus uint32 = 2 ^ 32
modulus float32 = 2 ^ 32
modulus _ = 2 ^ 64

-- `<` of two values of one type.
unfoldable pub less_than : CType → ℕ → ℕ → Bool
less_than int32 x y = ltb ((x + 2 ^ 31) % 2 ^ 32) ((y + 2 ^ 31) % 2 ^ 32)
less_than int64 x y = ltb ((x + 2 ^ 63) % 2 ^ 64) ((y + 2 ^ 63) % 2 ^ 64)
less_than _ x y = ltb x y

-- `>>`: a negative value shifts in ones.
unfoldable pub shifted_right : CType → ℕ → ℕ → ℕ
shifted_right int32 x n =
    if ltb x (2 ^ 31) then x / 2 ^ n else 2 ^ 32 - 1 - (2 ^ 32 - 1 - x) / 2 ^ n
shifted_right int64 x n =
    if ltb x (2 ^ 63) then x / 2 ^ n else 2 ^ 64 - 1 - (2 ^ 64 - 1 - x) / 2 ^ n
shifted_right _ x n = x / 2 ^ n

-- `__builtin_rotateleft32` and `__builtin_rotateleft64`.
unfoldable pub rotate_left : ℕ → ℕ → ℕ → ℕ
rotate_left w x n = x % 2 ^ (w - n % w) * 2 ^ (n % w) + x / 2 ^ (w - n % w)

abbrev pub value : CType → ℕ → Value
value t x = record { type = t; bits = x }

-- An operation on two values of one type; division is the host's.
unfoldable pub same_type : Host → BinOp → CType → ℕ → ℕ → Value
unfolding less_than
same_type h plus int32 x y = value int32 ((x + y) % 2 ^ 32)
same_type h plus uint32 x y = value uint32 ((x + y) % 2 ^ 32)
same_type h plus int64 x y = value int64 ((x + y) % 2 ^ 64)
same_type h plus uint64 x y = value uint64 ((x + y) % 2 ^ 64)
same_type h minus int32 x y = value int32 ((x + 2 ^ 32 - y) % 2 ^ 32)
same_type h minus uint32 x y = value uint32 ((x + 2 ^ 32 - y) % 2 ^ 32)
same_type h minus int64 x y = value int64 ((x + 2 ^ 64 - y) % 2 ^ 64)
same_type h minus uint64 x y = value uint64 ((x + 2 ^ 64 - y) % 2 ^ 64)
same_type h times int32 x y = value int32 (x * y % 2 ^ 32)
same_type h times uint32 x y = value uint32 (x * y % 2 ^ 32)
same_type h times int64 x y = value int64 (x * y % 2 ^ 64)
same_type h times uint64 x y = value uint64 (x * y % 2 ^ 64)
same_type h and_bits t x y = value t (bit_and x y)
same_type h or_bits t x y = value t (bit_or x y)
same_type h xor_bits t x y = value t (bit_xor x y)
same_type h less t x y = as_int (less_than t x y)
same_type h greater t x y = as_int (less_than t y x)
same_type h less_eq t x y = as_int (not (less_than t y x))
same_type h greater_eq t x y = as_int (not (less_than t x y))
same_type h equal t x y = as_int (x == y)
same_type h differs t x y = as_int (not (x == y))
same_type h both t x y = as_int (not (x == 0) && not (y == 0))
same_type h op t x y = value t (h.binary op t x y)

-- A shift has its left operand's type, the rotations the built-in functions'.
unfoldable pub binary : Host → BinOp → Value → Value → Value
unfolding common convert same_type shifted_right rotate_left
binary h shift_left a b = value a.type (a.bits * 2 ^ b.bits % modulus a.type)
binary h shift_right a b = value a.type (shifted_right a.type a.bits b.bits)
binary h rotate_left32 a b =
    value uint32 (rotate_left 32 (convert h a.type uint32 a.bits) (convert h b.type uint32 b.bits))
binary h rotate_left64 a b =
    value uint64 (rotate_left 64 (convert h a.type uint64 a.bits) (convert h b.type uint64 b.bits))
binary h op a b =
    let t = common a.type b.type in
    same_type h op t (convert h a.type t a.bits) (convert h b.type t b.bits)

-- `__builtin_bswap64`.
unfoldable pub byte_swap64 : ℕ → ℕ
unfolding byte_swap32
byte_swap64 x = byte_swap32 (x % 2 ^ 32) * 2 ^ 32 + byte_swap32 (x / 2 ^ 32)

unfoldable pub unary : Host → UnOp → Value → Value
unfolding convert byte_swap16 byte_swap32 byte_swap64
unary h complement a = value a.type (modulus a.type - 1 - a.bits)
unary h negate a = value a.type ((modulus a.type - a.bits) % modulus a.type)
unary h falsify a = as_int (a.bits == 0)
unary h swap16 a = value int32 (byte_swap16 (a.bits % 2 ^ 16))
unary h swap32 a = value uint32 (byte_swap32 (a.bits % 2 ^ 32))
unary h swap64 a = value uint64 (byte_swap64 (convert h a.type uint64 a.bits))
unary h op a = value a.type (h.unary op a.type a.bits)

-- A member of the union, promoted, and the conversion that `int16_t(..)` and the like make.
unfoldable pub view_value : View → ℕ → Value
unfolding sign_extend
view_value s8 x = value int32 (sign_extend (2 ^ 8) (2 ^ 32) (x % 2 ^ 8))
view_value u8 x = value int32 (x % 2 ^ 8)
view_value s16 x = value int32 (sign_extend (2 ^ 16) (2 ^ 32) (x % 2 ^ 16))
view_value u16 x = value int32 (x % 2 ^ 16)
view_value s32 x = value int32 (x % 2 ^ 32)
view_value u32 x = value uint32 (x % 2 ^ 32)
view_value s64 x = value int64 (x % 2 ^ 64)
view_value u64 x = value uint64 (x % 2 ^ 64)
view_value f32 x = value float32 (x % 2 ^ 32)
view_value f64 x = value float64 (x % 2 ^ 64)

-- The type that a member converts what is assigned to it, and the number of its values.
abbrev pub view_type : View → CType
view_type s64 = int64
view_type f32 = float32
view_type f64 = float64
view_type _ = uint64

abbrev pub view_modulus : View → ℕ
view_modulus s8 = 2 ^ 8
view_modulus u8 = 2 ^ 8
view_modulus s16 = 2 ^ 16
view_modulus u16 = 2 ^ 16
view_modulus s32 = 2 ^ 32
view_modulus u32 = 2 ^ 32
view_modulus f32 = 2 ^ 32
view_modulus _ = 2 ^ 64

-- `PPC_LOAD_U8` and the rest.
unfoldable pub load_bits : ℕ → Bytes → ℕ → ℕ
unfolding le16 le32 byte_swap16 byte_swap32 byte_swap64
load_bits w m p =
    if w == 8
    then m p
    else if w == 16
    then byte_swap16 (le16 m p)
    else if w == 32
    then byte_swap32 (le32 m p)
    else byte_swap64 (le32 m p + le32 m (p + 4) * 2 ^ 32)

-- A plain store of `n` bytes, the lowest first, and `PPC_STORE_U8` and the rest.
abbrev pub put_byte : Bytes → ℕ → ℕ → Bytes
put_byte m p v q = if q == p then v % 256 else m q

unfoldable pub put16 : Bytes → ℕ → ℕ → Bytes
put16 m p v = put_byte (put_byte m p v) (p + 1) (v / 2 ^ 8)

unfoldable pub put32 : Bytes → ℕ → ℕ → Bytes
unfolding put16
put32 m p v = put16 (put16 m p v) (p + 2) (v / 2 ^ 16)

unfoldable pub store_bits : ℕ → Bytes → ℕ → ℕ → Bytes
unfolding put16 put32 byte_swap16 byte_swap32 byte_swap64
store_bits w m p v =
    if w == 8
    then put_byte m p v
    else if w == 16
    then put16 m p (byte_swap16 (v % 2 ^ 16))
    else if w == 32
    then put32 m p (byte_swap32 (v % 2 ^ 32))
    else put32 (put32 m p (byte_swap64 v % 2 ^ 32)) (p + 4) (byte_swap64 v / 2 ^ 32)

-- The offset from `base` that a pointer sum has.
abbrev pub offset : Host → Value → ℕ
offset h a = convert h a.type int64 a.bits
