-- ===== src/Patch.antt =====
-- `XexPatcher::apply` of `XenonUtils/xex_patcher.cpp`: the decompression of a base file with basic
-- compression, in place. The file's data stands at the header size in the buffer.
pub mod Apply
pub mod Delta
pub mod InPlace
pub mod MemoryFile
use xenon_recomp.Base.{
  ℕ, ◌+◌, ◌-◌, ◌/◌, ◌^◌, ◌||◌, ltb, if◌then◌else◌, Option, none, some, List, [], ◌∷◌, add32,
}
use xenon_recomp.Memory.{Bytes, copy, fill}
use xenon_recomp.Xex.{basic_block_bytes, format_bytes, info_size}
use xenon_recomp.Xex.Basic.{BasicBlock, read_blocks}

-- `srcDataCursor`, `outDataCursor` and the buffer.
pub record Cursors : Type 0 where
  pub src : ℕ
  pub out : ℕ
  pub bytes : Bytes

-- The body of the reverse loop.
unfoldable pub step_back : BasicBlock → Cursors → Cursors
step_back b c =
    let zeros_at = c.out - b.zero_size in
    let cleared = fill 0 zeros_at b.zero_size c.bytes in
    let src = c.src - b.data_size in
    let out = zeros_at - b.data_size in
    record { src = src; out = out; bytes = copy cleared src out b.data_size cleared }

-- The loop from the last block to the first.
unfoldable pub expand_in_place : List BasicBlock → Cursors → Cursors
unfolding step_back
expand_in_place [] c = c
expand_in_place (b ∷ bs) c = step_back b (expand_in_place bs c)

-- `baseCompressedSize` and `baseImageSize`, as the bit patterns of an `int32_t`.
unfoldable pub sum_data : List BasicBlock → ℕ → ℕ
sum_data [] n = n
sum_data (b ∷ bs) n = sum_data bs (add32 n b.data_size)

unfoldable pub sum_image : List BasicBlock → ℕ → ℕ
sum_image [] n = n
sum_image (b ∷ bs) n = sum_image bs (add32 n (add32 b.data_size b.zero_size))

-- A pointer moved by an `int32_t`.
abbrev pub move_by : ℕ → ℕ → ℕ
move_by p n = if ltb n (2 ^ 31) then p + n else p + n - 2 ^ 32

-- The blocks put in place in a buffer of `size` bytes; `none` is `XexFileInvalid`.
unfoldable pub expand_base : List BasicBlock → ℕ → ℕ → Bytes → Option Bytes
unfolding sum_data sum_image expand_in_place
expand_base blocks header size m =
    let image = sum_image blocks 0 in
    if ltb size (add32 header image)
    then none
    else some
        (expand_in_place blocks (record {
          src = move_by header (sum_data blocks 0);
          out = move_by header image;
          bytes = m;
        })).bytes

-- The branch for basic compression; `file` of `n` bytes has the format information at `format`.
unfoldable pub decompress_base : Bytes → ℕ → ℕ → ℕ → ℕ → Bytes → Option Bytes
unfolding expand_base read_blocks
decompress_base file n format header size m =
    let words = info_size file format / basic_block_bytes in
    if ltb words 2 || ltb (n / basic_block_bytes) (words - 1)
    then none
    else expand_base (read_blocks file (format + format_bytes) (words - 1)) header size m
