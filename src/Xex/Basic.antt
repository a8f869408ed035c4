-- ===== src/Xex/Basic.antt =====
-- Basic compression in `Xex2LoadImage` of `XenonUtils/xex.cpp`: blocks of data and zeros.
use xenon_recomp.Base.{
  ℕ, zero, suc, ◌+◌, ◌-◌, ◌^◌, ◌≤◌, ◌<◌, ◌≡◌, refl, ◌∙◌, ap, ltb, if◌then◌else◌, List, [], ◌∷◌, All,
  add32, add64, arith, inl, inr, ltb→lt, ltb→le, if-cases,
}
use xenon_recomp.Memory.{
  Bytes, be32, copy, fill, copy_inside, copy_outside, fill_inside, fill_outside,
}
use xenon_recomp.Xex.{basic_block_bytes}

-- `Xex2FileBasicCompressionBlock`.
pub record BasicBlock : Type 0 where
  pub data_size : ℕ
  pub zero_size : ℕ

-- The `n` blocks at `p`.
unfoldable pub read_blocks : Bytes → ℕ → ℕ → List BasicBlock
read_blocks m p zero = []
read_blocks m p (suc n) =
    record { data_size = be32 m p; zero_size = be32 m (p + 4) }
    ∷ read_blocks m (p + basic_block_bytes) n

-- The first loop: `imageSize` and `compressedSize`. The sum of a block's sizes is a `uint32_t`.
unfoldable pub sum_blocks : List BasicBlock → ℕ × ℕ → ℕ × ℕ
sum_blocks [] sums = sums
sum_blocks (b ∷ bs) sums =
    sum_blocks bs (add64 sums.0 (add32 b.data_size b.zero_size), add64 sums.1 b.data_size)

-- The second loop, with the source and the destination position.
unfoldable pub expand_blocks : Bytes → List BasicBlock → ℕ → ℕ → Bytes → Bytes
expand_blocks src [] s d dest = dest
expand_blocks src (b ∷ bs) s d dest =
    expand_blocks src bs (s + b.data_size) (d + b.data_size + b.zero_size)
      (fill 0 (d + b.data_size) b.zero_size (copy src s d b.data_size dest))

-- The size of the image that the blocks describe, without wrapping.
abbrev pub total_size : List BasicBlock → ℕ
total_size [] = 0
total_size (b ∷ bs) = b.data_size + b.zero_size + total_size bs

-- Byte `i` of the image: in the data of its block, or one of its zeros.
abbrev pub image_byte : Bytes → List BasicBlock → ℕ → ℕ → ℕ
image_byte src [] s i = 0
image_byte src (b ∷ bs) s i =
    if ltb i b.data_size
    then src (s + i)
    else if ltb i (b.data_size + b.zero_size)
    then 0
    else image_byte src bs (s + b.data_size) (i - (b.data_size + b.zero_size))

expand_blocks-below :
    (src : Bytes) (bs : List BasicBlock) (s d : ℕ) (dest : Bytes) (i : ℕ)
    → i < d
    → expand_blocks src bs s d dest i ≡ dest i
unfolding expand_blocks
expand_blocks-below src [] s d dest i lt = refl
expand_blocks-below src (b ∷ bs) s d dest i lt =
    expand_blocks-below src bs _ _ _ i (omega (arith, lt))
    ∙ fill_outside 0 _ _ _ i (inl (omega (arith, lt)))
    ∙ copy_outside src s d _ dest i (inl lt)

-- The bytes behind the blocks' total size stay as they are.
expand_blocks-above :
    (src : Bytes) (bs : List BasicBlock) (s d : ℕ) (dest : Bytes) (i : ℕ)
    → d + total_size bs ≤ i
    → expand_blocks src bs s d dest i ≡ dest i
unfolding expand_blocks
expand_blocks-above src [] s d dest i le = refl
expand_blocks-above src (b ∷ bs) s d dest i le =
    expand_blocks-above src bs _ _ _ i (omega (arith, le))
    ∙ fill_outside 0 _ _ _ i (inr (omega (arith, le)))
    ∙ copy_outside src s d _ dest i (inr (omega (arith, le)))

pub expand_blocks-inside :
    (src : Bytes) (bs : List BasicBlock) (s d : ℕ) (dest : Bytes) (i : ℕ)
    → i < total_size bs
    → expand_blocks src bs s d dest (d + i) ≡ image_byte src bs s i
unfolding expand_blocks
expand_blocks-inside src [] s d dest i lt = absurd (omega (arith, lt))
expand_blocks-inside src (b ∷ bs) s d dest i lt =
    if-cases (λ r. expand_blocks src (b ∷ bs) s d dest (d + i) ≡ r) (ltb i b.data_size)
      (λ in_data.
        let here = ltb→lt _ _ in_data in
        expand_blocks-below src bs _ _ _ (d + i) (omega (arith, here))
        ∙ fill_outside 0 _ _ _ (d + i) (inl (omega (arith, here)))
        ∙ copy_inside src s d _ dest (d + i) (omega arith) (omega (arith, here))
        ∙ ap (λ k. src (s + k)) (omega arith))
      (λ past.
        let behind = ltb→le _ _ past in
        if-cases (λ r. expand_blocks src (b ∷ bs) s d dest (d + i) ≡ r)
          (ltb i (b.data_size + b.zero_size))
          (λ in_zeros.
            let here = ltb→lt _ _ in_zeros in
            expand_blocks-below src bs _ _ _ (d + i) (omega (arith, here))
            ∙ fill_inside 0 _ _ _ (d + i) (omega (arith, behind)) (omega (arith, here)))
          (λ later.
            let beyond = ltb→le _ _ later in
            ap (expand_blocks src bs (s + b.data_size) (d + b.data_size + b.zero_size) _)
              (omega (arith, beyond))
            ∙ expand_blocks-inside src bs (s + b.data_size) (d + b.data_size + b.zero_size) _
                (i - (b.data_size + b.zero_size)) (omega (arith, lt, beyond))))

abbrev pub Fits : BasicBlock → Type 0
Fits b = b.data_size + b.zero_size < 2 ^ 32

sum_blocks-total :
    (bs : List BasicBlock) (x y : ℕ)
    → All Fits bs
    → x + total_size bs < 2 ^ 64
    → (sum_blocks bs (x, y)).0 ≡ x + total_size bs
unfolding sum_blocks
sum_blocks-total [] x y f h = omega arith
sum_blocks-total (b ∷ bs) x y (f, fs) h =
    sum_blocks-total bs _ _ fs (omega (arith, f, h)) ∙ omega (arith, f, h)

-- Basic decompression fills exactly the buffer that the code allocates for it: below the image size
-- that it sums up each byte is the block's data or zero, and no byte behind it is written; for
-- blocks whose two sizes sum up in 32 bits and an image below 2 ^ 64 bytes.
pub expand_blocks-image :
    (src : Bytes) (bs : List BasicBlock) (s : ℕ) (dest : Bytes)
    → All Fits bs
    → total_size bs < 2 ^ 64
    → let n = (sum_blocks bs (0, 0)).0 in
      ((i : ℕ) → i < n → expand_blocks src bs s 0 dest i ≡ image_byte src bs s i)
      × ((i : ℕ) → n ≤ i → expand_blocks src bs s 0 dest i ≡ dest i)
expand_blocks-image src bs s dest f h =
    let n = sum_blocks-total bs 0 0 f (omega (arith, h)) in
    (
      (λ i lt.
          ap (expand_blocks src bs s 0 dest) {x = i} {y = 0 + i} (omega arith)
          ∙ expand_blocks-inside src bs s 0 dest i (omega (arith, n, lt))),
      (λ i le. expand_blocks-above src bs s 0 dest i (omega (arith, n, le))),
    )
