-- ===== src/Patch/Delta.antt =====
-- The LZX wrapper and the delta patches of `XenonUtils/xex_patcher.cpp`: `lzxDecompress` and
-- `lzxDeltaApplyPatch`. A read past the patch data is not noticed; a write or a read outside the
-- patched buffer, a `memcpy` of regions that overlap and a window larger than its buffer are
-- undefined.
pub mod Stream
use xenon_recomp.Base.{
  ℕ, zero, suc, ◌+◌, ◌-◌, ◌/◌, ◌%◌, ◌^◌, Bool, ◌&&◌, ◌||◌, ltb, leb, ◌==◌, if◌then◌else◌, Option,
  none, some,
}
use xenon_recomp.Memory.{Bytes, be16, be32, copy, fill, from, zeros}

-- `lzxd_init`, `lzxd_decompress` and `lzxd_free` of libmspack: the bits of the window, the data and
-- its length, the length of the output and the reference data in the window, if any; none is a
-- failed start or a result that is not zero.
abbrev pub Lzxd : Type 0
Lzxd = ℕ → Bytes → ℕ → ℕ → Option Bytes → Option Bytes

-- `bitScanForward`: the lowest one of a `uint32_t`, from bit `i` on with `left` bits to go.
unfoldable pub scan_bits : ℕ → ℕ → ℕ → Option ℕ
scan_bits zero v i = none
scan_bits (suc left) v i =
    let rest = scan_bits left v (i + 1) in if v / 2 ^ i % 2 == 1 then some i else rest

unfoldable pub bit_scan_forward : ℕ → Option ℕ
unfolding scan_bits
bit_scan_forward v = scan_bits 32 v 0

-- What a step leaves: the patched buffer, an error code, undefined behaviour, or no fuel.
pub data Patched : Type 0 where
  patched : Bytes → Patched
  failed undefined unfinished : Patched

infixl 1 ◌>>=◌
abbrev pub ◌>>=◌ : Patched → (Bytes → Patched) → Patched
patched m >>= f = f m
failed >>= f = failed
undefined >>= f = undefined
unfinished >>= f = unfinished

-- `memset` and `memcpy` in a buffer of `size` bytes.
unfoldable pub memset_in : ℕ → ℕ → ℕ → Bytes → Patched
memset_in size d n m = if ltb size (d + n) then undefined else patched (fill 0 d n m)

abbrev pub overlap : ℕ → ℕ → ℕ → Bool
overlap s d n = ltb s (d + n) && ltb d (s + n)

unfoldable pub memcpy_in : ℕ → ℕ → ℕ → ℕ → Bytes → Patched
memcpy_in size s d n m =
    if ltb size (s + n) || ltb size (d + n) || overlap s d n
    then undefined
    else patched (copy m s d n m)

-- The reference data: zeros, and the window data at the end of the window.
unfoldable pub window_data : ℕ → Bytes → ℕ → ℕ → Bytes
window_data window_size m s n = copy m s (window_size - n) n zeros

-- `Xex2DeltaPatch` at `p`.
abbrev pub old_address : Bytes → ℕ → ℕ
old_address m p = be32 m p

abbrev pub new_address : Bytes → ℕ → ℕ
new_address m p = be32 m (p + 4)

abbrev pub uncompressed_length : Bytes → ℕ → ℕ
uncompressed_length m p = be16 m (p + 8)

abbrev pub compressed_length : Bytes → ℕ → ℕ
compressed_length m p = be16 m (p + 10)

-- The fields in front of `patchData`.
abbrev pub delta_bytes : ℕ
delta_bytes = 12

-- The end marker.
unfoldable pub is_end : Bytes → ℕ → Bool
is_end m p =
    compressed_length m p == 0
    && uncompressed_length m p == 0
    && new_address m p == 0
    && old_address m p == 0

-- `curPatch++` and the move by `patchSize`: the size of the structure is 16.
unfoldable pub patch_advance : ℕ → ℕ
patch_advance compressed = if ltb compressed 2 then 16 - 4 else 16 + compressed - 4

module _ (lzxd : Lzxd) where
  -- `lzxDecompress` without reference data.
  unfoldable pub lzx_decompress : Bytes → ℕ → ℕ → ℕ → Option Bytes
  lzx_decompress src n dst_n window_size = elim (bit_scan_forward window_size) [
    | none ↦ none
    | some bits ↦ lzxd bits src n dst_n none
  ]

  -- `lzxDecompress` of `n` bytes at `p` into `k` bytes at `d` of a buffer, with the `k` bytes at `s`
  -- of the buffer as reference data.
  unfoldable pub lzx_decompress_in : ℕ → Bytes → ℕ → ℕ → ℕ → ℕ → ℕ → ℕ → Bytes → Patched
  lzx_decompress_in size src p n d k window_size s m = elim (bit_scan_forward window_size) [
    | none ↦ failed
    | some bits ↦
        if ltb window_size k || ltb size (s + k) || ltb size (d + k)
        then undefined
        else elim (lzxd bits (from src p) n k (some (window_data window_size m s k))) [
          | none ↦ failed
          | some bytes ↦ patched (copy bytes 0 d k m)
        ]
  ]

  module _ (window_size size base : ℕ) (src : Bytes) where
    -- The switch over `compressedLength` for the patch at `p`; `dstData` stands at `base`.
    unfoldable pub apply_delta : ℕ → Bytes → Patched
    apply_delta p m =
        let old = base + old_address src p in
        let new = base + new_address src p in
        let n = uncompressed_length src p in
        let c = compressed_length src p in
        if c == 0
        then memset_in size new n m
        else if c == 1
        then memcpy_in size old new n m
        else lzx_decompress_in size src (p + delta_bytes) c new n window_size old m

    -- The loop up to `patch_end`.
    unfoldable pub delta_loop : ℕ → ℕ → ℕ → Bytes → Patched
    delta_loop zero patch_end p m = unfinished
    delta_loop (suc fuel) patch_end p m =
        let rest = λ (m' : Bytes).
          delta_loop fuel patch_end (p + patch_advance (compressed_length src p)) m' in
        if leb patch_end p || is_end src p then patched m else (apply_delta p m >>= rest)

    -- `lzxDeltaApplyPatch` of `length` bytes at `p`. Each patch takes 12 bytes at least.
    unfoldable pub delta_apply_patch : ℕ → ℕ → Bytes → Patched
    unfolding delta_loop
    delta_apply_patch p length m = delta_loop (length + 1) (p + length) p m
