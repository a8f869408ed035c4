-- ===== src/Patch/InPlace.antt =====
-- The in-place decompression of `XenonUtils/xex_patcher.cpp` against the forward decompression of
-- `XenonUtils/xex.cpp`.
use xenon_recomp.Base.{
  ℕ, ◌+◌, ◌-◌, ◌^◌, ◌≤◌, ◌<◌, ◌≡◌, refl, sym, ◌∙◌, ap, ◌⊎◌, inl, inr, ltb, ltb→lt, ltb→le, if-cases,
  some, List, [], ◌∷◌, add32, arith,
}
use xenon_recomp.Memory.{
  Bytes, copy, fill, zeros, copy_inside, copy_outside, fill_inside, fill_outside,
}
use xenon_recomp.Xex.Basic.{BasicBlock, expand_blocks, total_size, image_byte, expand_blocks-inside}
use xenon_recomp.Patch.{
  Cursors, step_back, expand_in_place, sum_data, sum_image, move_by, expand_base,
}

abbrev pub total_data : List BasicBlock → ℕ
total_data [] = 0
total_data (b ∷ bs) = b.data_size + total_data bs

total_data-le : (bs : List BasicBlock) → total_data bs ≤ total_size bs
total_data-le [] = omega arith
total_data-le (b ∷ bs) = omega (arith, total_data-le bs)

-- The cursors stand at the starts, the image stands at the output, and no other byte has changed.
record Expands (m : Bytes) (bs : List BasicBlock) (s d : ℕ) (c : Cursors) : Type 0 where
  at_src : c.src ≡ s
  at_out : c.out ≡ d
  image : (i : ℕ) → i < total_size bs → c.bytes (d + i) ≡ image_byte m bs s i
  same : (i : ℕ) → (i < d) ⊎ (d + total_size bs ≤ i) → c.bytes i ≡ m i

step_back-Expands :
    (m : Bytes) (b : BasicBlock) (bs : List BasicBlock) (s d : ℕ) (c : Cursors)
    → s ≤ d
    → Expands m bs (s + b.data_size) (d + b.data_size + b.zero_size) c
    → Expands m (b ∷ bs) s d (step_back b c)
unfolding step_back
step_back-Expands m b bs s d c le e = record {
  at_src = omega (arith, e.at_src);
  at_out = omega (arith, e.at_out);
  image = λ i lt.
      if-cases (λ r. final (d + i) ≡ r) (ltb i b.data_size)
        (λ in_data.
          let here = ltb→lt _ _ in_data in
          copy_inside cleared src out b.data_size cleared (d + i) (omega (arith, e.at_out))
            (omega (arith, e.at_out, here))
          ∙ ap cleared {y = s + i} (omega (arith, e.at_src, e.at_out))
          ∙ fill_outside 0 zeros_at b.zero_size c.bytes (s + i)
              (inl (omega (arith, e.at_out, here, le)))
          ∙ e.same (s + i) (inl (omega (arith, here, le))))
        (λ past.
          let behind = ltb→le _ _ past in
          copy_outside cleared src out b.data_size cleared (d + i)
            (inr (omega (arith, e.at_out, behind)))
          ∙ if-cases (λ r. cleared (d + i) ≡ r) (ltb i (b.data_size + b.zero_size))
              (λ in_zeros.
                let here = ltb→lt _ _ in_zeros in
                fill_inside 0 zeros_at b.zero_size c.bytes (d + i) (omega (arith, e.at_out, behind))
                  (omega (arith, e.at_out, here)))
              (λ later.
                let beyond = ltb→le _ _ later in
                fill_outside 0 zeros_at b.zero_size c.bytes (d + i)
                  (inr (omega (arith, e.at_out, beyond)))
                ∙ ap c.bytes {y = d + b.data_size + b.zero_size + (i - (b.data_size + b.zero_size))}
                    (omega (arith, beyond))
                ∙ e.image (i - (b.data_size + b.zero_size)) (omega (arith, lt, beyond))));
  same = λ i away.
      copy_outside cleared src out b.data_size cleared i (
        before_or_behind i out b.data_size away (omega (arith, e.at_out)) (omega (arith, e.at_out)))
      ∙ fill_outside 0 zeros_at b.zero_size c.bytes i (
          before_or_behind i zeros_at b.zero_size away (omega (arith, e.at_out))
            (omega (arith, e.at_out)))
      ∙ e.same i (elim away [
        | inl below ↦ inl (omega (arith, below))
        | inr above ↦ inr (omega (arith, above))
      ]);
}
  where
    zeros_at : ℕ
    zeros_at = c.out - b.zero_size

    src : ℕ
    src = c.src - b.data_size

    out : ℕ
    out = zeros_at - b.data_size

    cleared : Bytes
    cleared = fill 0 zeros_at b.zero_size c.bytes

    final : Bytes
    final = copy cleared src out b.data_size cleared

    before_or_behind :
        (i p n : ℕ)
        → (i < d) ⊎ (d + total_size (b ∷ bs) ≤ i)
        → d ≤ p
        → p + n ≤ d + total_size (b ∷ bs)
        → (i < p) ⊎ (p + n ≤ i)
    before_or_behind i p n (inl below) lo hi = inl (omega (arith, below, lo))
    before_or_behind i p n (inr above) lo hi = inr (omega (arith, above, hi))

expand_in_place-Expands :
    (m : Bytes) (bs : List BasicBlock) (s d s' d' : ℕ)
    → s ≤ d
    → s' ≡ s + total_data bs
    → d' ≡ d + total_size bs
    → Expands m bs s d (expand_in_place bs (record { src = s'; out = d'; bytes = m }))
unfolding expand_in_place
expand_in_place-Expands m [] s d s' d' le es ed = record {
  at_src = omega (arith, es);
  at_out = omega (arith, ed);
  image = λ i lt. absurd (omega (arith, lt));
  same = λ i out. refl;
}
expand_in_place-Expands m (b ∷ bs) s d s' d' le es ed = step_back-Expands m b bs s d _ le (
    expand_in_place-Expands m bs (s + b.data_size) (d + b.data_size + b.zero_size) s' d'
      (omega (arith, le)) (omega (arith, es)) (omega (arith, ed)))

sum_data-total :
    (bs : List BasicBlock) (n : ℕ) → n + total_data bs < 2 ^ 32 → sum_data bs n ≡ n + total_data bs
unfolding sum_data
sum_data-total [] n h = omega arith
sum_data-total (b ∷ bs) n h = sum_data-total bs _ (omega (arith, h)) ∙ omega (arith, h)

sum_image-total :
    (bs : List BasicBlock) (n : ℕ) → n + total_size bs < 2 ^ 32 → sum_image bs n ≡ n + total_size bs
unfolding sum_image
sum_image-total [] n h = omega arith
sum_image-total (b ∷ bs) n h = sum_image-total bs _ (omega (arith, h)) ∙ omega (arith, h)

-- The in-place decompression of a base file agrees with the forward decompression of the loader: it
-- is accepted, the image that it leaves behind the header is the one that the forward loop writes to
-- a buffer of its own, and no byte outside that image changes; for blocks whose image is below
-- 2 ^ 31 bytes and fits the buffer.
pub expand_base-expand_blocks :
    (bs : List BasicBlock) (header size : ℕ) (m : Bytes)
    → total_size bs < 2 ^ 31
    → header + total_size bs < 2 ^ 32
    → header + total_size bs ≤ size
    → (r : Bytes) × (expand_base bs header size m ≡ some r)
      × ((i : ℕ) → i < total_size bs → r (header + i) ≡ expand_blocks m bs header 0 zeros i)
      × ((i : ℕ) → (i < header) ⊎ (header + total_size bs ≤ i) → r i ≡ m i)
unfolding expand_base
expand_base-expand_blocks bs header size m small wraps fits =
    let data_n = sum_data-total bs 0 (omega (arith, small, total_data-le bs)) in
    let image_n = sum_image-total bs 0 (omega (arith, small)) in
    let e =
      expand_in_place-Expands m bs header header (move_by header (sum_data bs 0))
        (move_by header (sum_image bs 0)) (omega arith)
        (ground (arith, data_n, small, total_data-le bs)) (ground (arith, image_n, small)) in
    if-cases
      (λ o.
        (r : Bytes) × (o ≡ some r)
        × ((i : ℕ) → i < total_size bs → r (header + i) ≡ expand_blocks m bs header 0 zeros i)
        × ((i : ℕ) → (i < header) ⊎ (header + total_size bs ≤ i) → r i ≡ m i))
      (ltb size (add32 header (sum_image bs 0)))
      (λ short. absurd (ground (arith, short, image_n, wraps, fits)))
      (λ enough. (
        _,
        refl,
        (λ i lt.
            e.image i lt
            ∙ sym (expand_blocks-inside m bs header 0 zeros i lt)
            ∙ ap (expand_blocks m bs header 0 zeros) (omega arith)),
        e.same,
      ))
