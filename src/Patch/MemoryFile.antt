-- ===== src/Patch/MemoryFile.antt =====
-- The memory files of `XenonUtils/xex_patcher.cpp` that the LZX decoder reads and writes:
-- `mspack_memory_open`, `mspack_memory_read` and `mspack_memory_write`. An `int` is its 32-bit word.
use xenon_recomp.Base.{
  ℕ, ◌+◌, ◌-◌, ◌^◌, ◌≤◌, ◌<◌, ◌≡◌, refl, sym, ◌∙◌, Bool, ◌&&◌, ltb, leb, if◌then◌else◌, Bool-cases,
  inl, inr, Option, none, some, List, [], ◌∷◌, All, sub64, leb→le, arith,
}
use xenon_recomp.Memory.{Bytes, copy}

-- `mspack_memory_file` with the bytes of its buffer.
pub record MemoryFile : Type 0 where
  pub buffer : Bytes
  pub size : ℕ
  pub offset : ℕ

-- `mspack_memory_open`, where `room` says that the allocation succeeds.
unfoldable pub memory_open : Bool → Bytes → ℕ → Option MemoryFile
memory_open room m n =
    if leb (2 ^ 31 - 1) n
    then none
    else if room
    then some (record { buffer = m; size = n; offset = 0 })
    else none

-- `size_t(chars)`, which extends the sign.
abbrev pub size_of_int : ℕ → ℕ
size_of_int chars = if ltb chars (2 ^ 31) then chars else 2 ^ 64 - 2 ^ 32 + chars

-- `total` of a read or a write.
unfoldable pub transferred : MemoryFile → ℕ → ℕ
transferred f chars =
    let remaining = sub64 f.size f.offset in
    let n = size_of_int chars in if ltb remaining n then remaining else n

-- `mspack_memory_read` to a buffer: the file, the buffer and the result.
unfoldable pub memory_read : MemoryFile → ℕ → Bytes → MemoryFile × Bytes × ℕ
unfolding transferred
memory_read f chars m =
    let total = transferred f chars in
    (record f { offset = f.offset + total }, copy f.buffer f.offset 0 total m, total)

-- `mspack_memory_write` from a buffer: the file and the result.
unfoldable pub memory_write : MemoryFile → Bytes → ℕ → MemoryFile × ℕ
unfolding transferred
memory_write f m chars =
    let total = transferred f chars in
    (record f { buffer = copy m 0 f.offset total f.buffer; offset = f.offset + total }, total)

-- Writes in a row, each of a number of bytes from the start of a buffer.
unfoldable pub write_all : List (Bytes × ℕ) → MemoryFile → MemoryFile
unfolding memory_write
write_all [] f = f
write_all (w ∷ ws) f = write_all ws (memory_write f w.0 w.1).0

-- The bytes written, one behind the other, and their number.
unfoldable pub stream : List (Bytes × ℕ) → Bytes
stream [] i = 0
stream (w ∷ ws) i = if ltb i w.1 then w.0 i else stream ws (i - w.1)

unfoldable pub stream_length : List (Bytes × ℕ) → ℕ
stream_length [] = 0
stream_length (w ∷ ws) = w.1 + stream_length ws

abbrev pub cut : ℕ → ℕ → ℕ
cut a b = if ltb a b then a else b

write_all-offset :
    (ws : List (Bytes × ℕ)) (f : MemoryFile)
    → f.offset ≤ f.size
    → f.size < 2 ^ 31
    → All (λ w. w.1 < 2 ^ 31) ws
    → ((write_all ws f).size ≡ f.size)
      × ((write_all ws f).offset ≡ cut f.size (f.offset + stream_length ws))
unfolding write_all memory_write transferred stream_length
write_all-offset [] f lo hi h = (refl, ground arith)
write_all-offset (w ∷ ws) f lo hi (h, hs) =
    let rest = write_all-offset ws (memory_write f w.0 w.1).0 (ground arith) hi hs in
    let later = rest.1 in (rest.0, later ∙ ground arith)

-- A byte after a write that fits, or is cut, and the writes behind it.
module _ (w : Bytes) (rest : Bytes) (old : Bytes) (o size n r i : ℕ) where
  fits_step :
      o + n ≤ size
      → (if leb (o + n) i && ltb i (cut size (o + n + r))
          then rest (i - (o + n))
          else copy w 0 o n old i)
        ≡ (if leb o i && ltb i (cut size (o + (n + r)))
            then (if ltb (i - o) n then w (i - o) else rest (i - o - n))
            else old i)
  unfolding copy
  fits_step h = elim (Bool-cases (leb (o + n) i)) [
    | inl behind ↦ let e : i - (o + n) ≡ i - o - n = omega arith in rw e (ground arith)
    | inr inside ↦ ground arith
  ]

  cut_step :
      o ≤ size
      → size < o + n
      → (if leb (o + (size - o)) i && ltb i (cut size (o + (size - o) + r))
          then rest (i - (o + (size - o)))
          else copy w 0 o (size - o) old i)
        ≡ (if leb o i && ltb i (cut size (o + (n + r)))
            then (if ltb (i - o) n then w (i - o) else rest (i - o - n))
            else old i)
  unfolding copy
  cut_step lo h = ground arith

write_all-buffer :
    (ws : List (Bytes × ℕ)) (f : MemoryFile) (i : ℕ)
    → f.offset ≤ f.size
    → f.size < 2 ^ 31
    → All (λ w. w.1 < 2 ^ 31) ws
    → (write_all ws f).buffer i ≡ (
        if leb f.offset i && ltb i (cut f.size (f.offset + stream_length ws))
        then stream ws (i - f.offset)
        else f.buffer i)
unfolding write_all memory_write transferred stream_length stream copy
write_all-buffer [] f i lo hi h = ground arith
write_all-buffer (w ∷ ws) f i lo hi (h, hs) =
    let rest = write_all-buffer ws (memory_write f w.0 w.1).0 i (ground arith) hi hs in
    elim (Bool-cases (leb (f.offset + w.1) f.size)) [
      | inl fits ↦
          let t : transferred f w.1 ≡ w.1 = ground arith in
          rest
          ∙ (rw t (
              fits_step w.0 (stream ws) f.buffer f.offset f.size w.1 (stream_length ws) i
                (leb→le (f.offset + w.1) f.size fits)))
      | inr over ↦
          let t : transferred f w.1 ≡ f.size - f.offset = ground arith in
          rest
          ∙ (rw t (
              cut_step w.0 (stream ws) f.buffer f.offset f.size w.1 (stream_length ws) i lo
                (ground (arith, over))))
    ]

abbrev opened : Bytes → ℕ → MemoryFile
opened m n = record { buffer = m; size = n; offset = 0 }

memory_open-opened :
    (room : Bool) (m : Bytes) (n : ℕ) (f : MemoryFile)
    → memory_open room m n ≡ some f
    → (opened m n ≡ f) × (n < 2 ^ 31)
unfolding memory_open
memory_open-opened room m n f h = elim (Bool-cases (leb (2 ^ 31 - 1) n)) [
  | inl large ↦ absurd (none≢some (rw large at h))
  | inr small ↦ elim (Bool-cases room) [
    | inl there ↦ (injective (rw (small, there) at h), ground (arith, small))
    | inr full ↦ absurd (none≢some (rw (small, full) at h))
  ]
]
  where
    none≢some : none ≡ some f → ⊥
    none≢some e = cc

    injective : {a b : MemoryFile} → some a ≡ some b → a ≡ b
    injective e = cc

-- Writes of any lengths to an opened file, in a row, leave in its buffer the bytes written one behind
-- the other as far as they fit, and no byte behind them is changed; the offset is their number, cut
-- at the size. A read from a file opened on that buffer gives its bytes from the start, as many as
-- are asked for and are there.
pub memory_write-stream :
    (room room' : Bool) (m dst : Bytes) (n chars : ℕ) (f g : MemoryFile) (ws : List (Bytes × ℕ))
    → memory_open room m n ≡ some f
    → memory_open room' (write_all ws f).buffer n ≡ some g
    → All (λ w. w.1 < 2 ^ 31) ws
    → chars < 2 ^ 31
    → ((write_all ws f).offset ≡ cut n (stream_length ws))
      × ((i : ℕ)
          → (write_all ws f).buffer i
            ≡ (if ltb i (cut n (stream_length ws)) then stream ws i else m i))
      × ((i : ℕ)
          → (memory_read g chars dst).1 i
            ≡ (if ltb i (cut n chars) then (write_all ws f).buffer i else dst i))
unfolding memory_read transferred copy
memory_write-stream room room' m dst n chars f g ws h h' small short =
    let e = memory_open-opened room m n f h in
    let e' = memory_open-opened room' (write_all ws f).buffer n g h' in
    let none_left : (i : ℕ) → i - 0 ≡ i = λ i. omega arith in
    (
      rw (sym e.0) ((write_all-offset ws (opened m n) (omega arith) e.1 small).1 ∙ ground arith),
      λ i. rw (sym e.0) (
          write_all-buffer ws (opened m n) i (omega arith) e.1 small
          ∙ rw (none_left i) (ground arith)),
      λ i. rw (sym e'.0) (ground (arith, e'.1)),
    )
