-- ===== src/Patch/Delta/Stream.antt =====
-- Delta patches as a list of edits: `lzxDeltaApplyPatch` ends, and applies the edits that the bytes
-- describe.
use xenon_recomp.Base.{
  ℕ, zero, suc, ◌+◌, ◌≤◌, ◌<◌, ◌≡◌, ◌≢◌, ◌⊎◌, refl, ◌∙◌, ap, true, false, ◌||◌, leb, ◌==◌, if-cases,
  if_true, if_false, List, [], ◌∷◌, arith,
}
use mathlib.Core.Path.{fun_ext}
use xenon_recomp.Memory.{Bytes}
use xenon_recomp.Patch.Delta.{
  Lzxd, Patched, patched, failed, undefined, unfinished, ◌>>=◌, memset_in, memcpy_in,
  lzx_decompress_in, old_address, new_address, uncompressed_length, compressed_length, delta_bytes,
  is_end, patch_advance, apply_delta, delta_loop, delta_apply_patch,
}

-- What a patch does: zeros at an address, a move, or the decompression of data with a region of the
-- buffer as reference.
pub data Edit : Type 0 where
  clear : ℕ → ℕ → Edit
  move : ℕ → ℕ → ℕ → Edit
  unpack : ℕ → ℕ → ℕ → ℕ → Edit

unfoldable pub edit_bytes : Edit → ℕ
edit_bytes (clear new n) = 12
edit_bytes (move old new n) = 12
edit_bytes (unpack old new n c) = 12 + c

-- The edit is written at `p`, and is not taken for the end marker.
abbrev pub Written : Bytes → ℕ → Edit → Type 0
Written src p (clear new n) =
    (compressed_length src p ≡ 0)
    × (new_address src p ≡ new)
    × (uncompressed_length src p ≡ n)
    × (0 < old_address src p + new + n)
Written src p (move old new n) =
    (compressed_length src p ≡ 1)
    × (old_address src p ≡ old)
    × (new_address src p ≡ new)
    × (uncompressed_length src p ≡ n)
Written src p (unpack old new n c) =
    (compressed_length src p ≡ c)
    × (1 < c)
    × (old_address src p ≡ old)
    × (new_address src p ≡ new)
    × (uncompressed_length src p ≡ n)

-- The edits stand one behind the other from `p` on, each of them starts before `patch_end`, and
-- behind the last one the patches end or the end marker stands.
abbrev pub Stands : Bytes → ℕ → ℕ → List Edit → Type 0
Stands src patch_end p [] = (patch_end ≤ p) ⊎ (is_end src p ≡ true)
Stands src patch_end p (e ∷ es) =
    (p < patch_end) × Written src p e × Stands src patch_end (p + edit_bytes e) es

module _ (lzxd : Lzxd) (window_size size base : ℕ) (src : Bytes) where
  -- The edit at `p` on the buffer.
  unfoldable pub run_edit : ℕ → Edit → Bytes → Patched
  run_edit p (clear new n) m = memset_in size (base + new) n m
  run_edit p (move old new n) m = memcpy_in size (base + old) (base + new) n m
  run_edit p (unpack old new n c) m =
      lzx_decompress_in lzxd size src (p + delta_bytes) c (base + new) n window_size (base + old) m

  unfoldable pub run_edits : ℕ → List Edit → Bytes → Patched
  unfolding run_edit edit_bytes
  run_edits p [] m = patched m
  run_edits p (e ∷ es) m = run_edit p e m >>= λ m'. run_edits (p + edit_bytes e) es m'

  Written-not_end : (p : ℕ) (e : Edit) → Written src p e → is_end src p ≡ false
  unfolding is_end
  Written-not_end p (clear new n) w = ground (arith, w)
  Written-not_end p (move old new n) w = ground (arith, w)
  Written-not_end p (unpack old new n c) w = ground (arith, w)

  Written-advance :
      (p : ℕ) (e : Edit) → Written src p e → patch_advance (compressed_length src p) ≡ edit_bytes e
  unfolding patch_advance edit_bytes
  Written-advance p (clear new n) w = ground (arith, w)
  Written-advance p (move old new n) w = ground (arith, w)
  Written-advance p (unpack old new n c) w = ground (arith, w)

  apply_delta-run_edit :
      (p : ℕ) (e : Edit) (m : Bytes)
      → Written src p e
      → apply_delta lzxd window_size size base src p m ≡ run_edit p e m
  unfolding apply_delta run_edit
  apply_delta-run_edit p (clear new n) m w = rw (w.0, w.1, w.2) refl
  apply_delta-run_edit p (move old new n) m w = rw (w.0, w.1, w.2, w.3) refl
  apply_delta-run_edit p (unpack old new n c) m w =
      let compressed : (compressed_length src p == 0) ≡ false = ground (arith, w) in
      let not_moved : (compressed_length src p == 1) ≡ false = ground (arith, w) in
      rw (compressed, not_moved, w.0, w.2, w.3, w.4) refl

  edit_bytes_pos : (e : Edit) → 12 ≤ edit_bytes e
  unfolding edit_bytes
  edit_bytes_pos (clear new n) = omega arith
  edit_bytes_pos (move old new n) = omega arith
  edit_bytes_pos (unpack old new n c) = omega arith

  delta_loop-run_edits :
      (fuel patch_end p : ℕ) (es : List Edit) (m : Bytes)
      → 0 < fuel
      → patch_end < p + fuel
      → Stands src patch_end p es
      → delta_loop lzxd window_size size base src fuel patch_end p m ≡ run_edits p es m
  unfolding delta_loop run_edits
  delta_loop-run_edits zero patch_end p es m h k s = absurd (omega arith)
  delta_loop-run_edits (suc fuel) patch_end p [] m h k s =
      if_true {b = leb patch_end p || is_end src p} _ _ (ground (arith, s))
  delta_loop-run_edits (suc fuel) patch_end p (e ∷ es) m h k (lt, w, s) =
      if_false {b = leb patch_end p || is_end src p} _ _ (ground (arith, Written-not_end p e w))
      ∙ ap
          (λ r.
            r
            >>= delta_loop lzxd window_size size base src fuel patch_end
                (p + patch_advance (compressed_length src p)))
          (apply_delta-run_edit p e m w)
      ∙ ap (λ f. run_edit p e m >>= f)
          (fun_ext (λ m'.
            ap (λ k'. delta_loop lzxd window_size size base src fuel patch_end (p + k') m')
              (Written-advance p e w)
            ∙ delta_loop-run_edits fuel patch_end (p + edit_bytes e) es m' (omega (arith, lt, k))
                (omega (arith, lt, k, edit_bytes_pos e)) s))

  -- For edits written one behind the other in the patch data, `lzxDeltaApplyPatch` applies them in
  -- order, each at its own bytes, up to the end of the data or the end marker.
  pub delta_apply_patch-run_edits :
      (p length : ℕ) (es : List Edit) (m : Bytes)
      → Stands src (p + length) p es
      → delta_apply_patch lzxd window_size size base src p length m ≡ run_edits p es m
  unfolding delta_apply_patch
  delta_apply_patch-run_edits p length es m s =
      delta_loop-run_edits (length + 1) (p + length) p es m (omega arith) (omega arith) s

  >>=-ends :
      (r : Patched) (f : Bytes → Patched)
      → r ≢ unfinished
      → ((m : Bytes) → f m ≢ unfinished)
      → (r >>= f) ≢ unfinished
  >>=-ends (patched m) f h k = k m
  >>=-ends failed f h k = h
  >>=-ends undefined f h k = h
  >>=-ends unfinished f h k = h

  lzx_decompress_in-ends :
      (p n d k s : ℕ) (m : Bytes)
      → lzx_decompress_in lzxd size src p n d k window_size s m ≢ unfinished
  unfolding lzx_decompress_in
  lzx_decompress_in-ends p n d k s m = ground arith

  apply_delta-ends :
      (p : ℕ) (m : Bytes) → apply_delta lzxd window_size size base src p m ≢ unfinished
  unfolding apply_delta memset_in memcpy_in
  apply_delta-ends p m = ground (
    arith,
    lzx_decompress_in-ends (p + delta_bytes) (compressed_length src p) (base + new_address src p)
        (uncompressed_length src p) (base + old_address src p) m,
  )

  patch_advance_pos : (c : ℕ) → 12 ≤ patch_advance c
  unfolding patch_advance
  patch_advance_pos c = ground arith

  delta_loop-ends :
      (fuel patch_end p : ℕ) (m : Bytes)
      → 0 < fuel
      → patch_end < p + fuel
      → delta_loop lzxd window_size size base src fuel patch_end p m ≢ unfinished
  unfolding delta_loop
  delta_loop-ends zero patch_end p m h k = absurd (omega arith)
  delta_loop-ends (suc fuel) patch_end p m h k =
      if-cases (λ r. r ≢ unfinished) (leb patch_end p || is_end src p) (λ stop e. cc)
        (λ on.
          let lt : p < patch_end = ground (arith, on) in
          >>=-ends _ _ (apply_delta-ends p m) (λ m'.
            delta_loop-ends fuel patch_end _ m' (omega (arith, lt, k))
              (omega (arith, lt, k, patch_advance_pos (compressed_length src p)))))

  -- `lzxDeltaApplyPatch` ends, whatever the patch data are.
  pub delta_apply_patch-ends :
      (p length : ℕ) (m : Bytes)
      → delta_apply_patch lzxd window_size size base src p length m ≢ unfinished
  unfolding delta_apply_patch
  delta_apply_patch-ends p length m =
      delta_loop-ends (length + 1) (p + length) p m (omega arith) (omega arith)
