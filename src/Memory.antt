-- ===== src/Memory.antt =====
-- Buffers as functions from offsets to bytes, and the reads and writes that the loaders make:
-- `be<T>` of `XenonUtils/xbox.h`, plain little-endian fields, `memcpy`, `memmove` and `memset`.
use xenon_recomp.Base.{
  ℕ, ◌+◌, ◌-◌, ◌*◌, ◌^◌, ◌≤◌, ◌<◌, ◌≡◌, ◌⊎◌, Bool, ◌&&◌, leb, ltb, if◌then◌else◌, arith,
}

abbrev pub Bytes : Type 0
Bytes = ℕ → ℕ

-- `be<uint16_t>` and `be<uint32_t>`.
unfoldable pub be16 : Bytes → ℕ → ℕ
be16 m p = m p * 2 ^ 8 + m (p + 1)

unfoldable pub be32 : Bytes → ℕ → ℕ
be32 m p = m p * 2 ^ 24 + m (p + 1) * 2 ^ 16 + m (p + 2) * 2 ^ 8 + m (p + 3)

-- `uint16_t` and `uint32_t` on the little-endian host.
unfoldable pub le16 : Bytes → ℕ → ℕ
le16 m p = m p + m (p + 1) * 2 ^ 8

unfoldable pub le32 : Bytes → ℕ → ℕ
le32 m p = m p + m (p + 1) * 2 ^ 8 + m (p + 2) * 2 ^ 16 + m (p + 3) * 2 ^ 24

abbrev pub within : ℕ → ℕ → ℕ → Bool
within start n i = leb start i && ltb i (start + n)

-- `memcpy(dst + d, src + s, n)`, and `memmove` where `src` is `dst`: all reads come first.
unfoldable pub copy : Bytes → ℕ → ℕ → ℕ → Bytes → Bytes
copy src s d n dst i = if within d n i then src (s + (i - d)) else dst i

-- `memset(dst + d, v, n)`.
unfoldable pub fill : ℕ → ℕ → ℕ → Bytes → Bytes
fill v d n dst i = if within d n i then v else dst i

-- The bytes from `p` on, as a buffer of their own.
abbrev pub from : Bytes → ℕ → Bytes
from m p i = m (p + i)

abbrev pub zeros : Bytes
zeros i = 0

pub copy_inside :
    (src : Bytes) (s d n : ℕ) (dst : Bytes) (i : ℕ)
    → d ≤ i
    → i < d + n
    → copy src s d n dst i ≡ src (s + (i - d))
unfolding copy
copy_inside src s d n dst i lo hi = ground arith

pub copy_outside :
    (src : Bytes) (s d n : ℕ) (dst : Bytes) (i : ℕ)
    → (i < d) ⊎ (d + n ≤ i)
    → copy src s d n dst i ≡ dst i
unfolding copy
copy_outside src s d n dst i out = ground arith

pub fill_inside : (v d n : ℕ) (dst : Bytes) (i : ℕ) → d ≤ i → i < d + n → fill v d n dst i ≡ v
unfolding fill
fill_inside v d n dst i lo hi = ground arith

pub fill_outside :
    (v d n : ℕ) (dst : Bytes) (i : ℕ) → (i < d) ⊎ (d + n ≤ i) → fill v d n dst i ≡ dst i
unfolding fill
fill_outside v d n dst i out = ground arith
