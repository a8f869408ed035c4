-- ===== src/Xex/Pe.antt =====
-- The mapping of the executable's sections in `Xex2LoadImage` of `XenonUtils/xex.cpp`.
use Prim.Native.String.{String}
use xenon_recomp.Base.{
  ℕ, zero, suc, ◌+◌, ◌-◌, ◌/◌, ◌%◌, ◌^◌, ◌≤◌, ◌<◌, ◌≡◌, refl, subst, inl, inr, ◌||◌, ltb, leb, ◌==◌,
  if◌then◌else◌, if-cases, Option, none, some, some-injective, Option-cases, List, [], ◌∷◌, All,
  add64, arith, ◌>>=◌, bind-some,
}
use xenon_recomp.Memory.{Bytes, le16, le32}
use xenon_recomp.Image.{
  Section, insert_section, map_section, before_upper_bound, check_section, find_section,
  find_address,
}

-- `sizeof` of `IMAGE_DOS_HEADER`, `IMAGE_NT_HEADERS32` and `IMAGE_SECTION_HEADER`.
abbrev pub dos_bytes : ℕ
dos_bytes = 64

abbrev pub nt_bytes : ℕ
nt_bytes = 248

abbrev pub section_bytes : ℕ
section_bytes = 40

-- `e_magic` and `e_lfanew`, and `NumberOfSections` behind the signature.
abbrev pub dos_magic : Bytes → ℕ
dos_magic m = le16 m 0

abbrev pub lfanew : Bytes → ℕ
lfanew m = le32 m 60

abbrev pub section_count : Bytes → ℕ
section_count m = le16 m (lfanew m + 6)

-- `VirtualSize`, `VirtualAddress` and `Characteristics` of the section header at `p`.
abbrev pub virtual_size : Bytes → ℕ → ℕ
virtual_size m p = le32 m (p + 8)

abbrev pub virtual_address : Bytes → ℕ → ℕ
virtual_address m p = le32 m (p + 12)

abbrev pub characteristics : Bytes → ℕ → ℕ
characteristics m p = le32 m (p + 36)

-- `IMAGE_SCN_CNT_CODE` in the characteristics gives the code flag.
abbrev pub section_flags : ℕ → ℕ
section_flags c = if c / 0x20 % 2 == 1 then 2 else 0

-- `name_of` reads the C string at an offset, `n` is the size and `base` the address of the image.
module _ (name_of : Bytes → ℕ → String) (m : Bytes) (n base : ℕ) where
  -- The body of the loop over the section headers; `none` is the error return.
  unfoldable pub map_pe_section : ℕ → List Section → Option (List Section)
  map_pe_section p sections =
      let address = virtual_address m p in
      let size = virtual_size m p in
      let clamped = if ltb (n - address) size then n - address else size in
      if size == 0
      then some sections
      else if leb n address
      then none
      else some (
          map_section base (name_of m p) address clamped (section_flags (characteristics m p))
            address sections)

  -- The loop, with `left` headers to go from `p` on.
  unfoldable pub map_pe_sections : ℕ → ℕ → List Section → Option (List Section)
  unfolding map_pe_section
  map_pe_sections zero p sections = some sections
  map_pe_sections (suc left) p sections = do
    mapped ← map_pe_section p sections
    map_pe_sections left (p + section_bytes) mapped

  -- A section that stands at its own address in the image, inside the image's buffer.
  abbrev pub InImage : Section → Type 0
  InImage s = (s.base ≡ add64 base s.data_at) × (s.data_at + s.size ≤ n)

  insert-InImage :
      (s : Section) (ss : List Section)
      → InImage s
      → All InImage ss
      → All InImage (insert_section s ss)
  unfolding insert_section
  insert-InImage s [] h hs = (h, tt)
  insert-InImage s (t ∷ ts) h (ht, hts) =
      if-cases (All InImage) (ltb s.base t.base) (λ e. (h, (ht, hts)))
        (λ e.
          if-cases (All InImage) (ltb t.base s.base) (λ e'. (ht, insert-InImage s ts h hts))
            (λ e'. (ht, hts)))

  map_pe_section-InImage :
      (p : ℕ) (ss mapped : List Section)
      → All InImage ss
      → map_pe_section p ss ≡ some mapped
      → All InImage mapped
  unfolding map_pe_section map_section
  map_pe_section-InImage p ss mapped h e =
      let address = virtual_address m p in
      let size = virtual_size m p in
      if-cases (λ r. r ≡ some mapped → All InImage mapped) (size == 0)
        (λ empty e'. subst (All InImage) (some-injective _ _ e') h)
        (λ data_here.
          if-cases (λ r. r ≡ some mapped → All InImage mapped) (leb n address)
            (λ outside e'. absurd (none≢some e'))
            (λ inside e'.
              subst (All InImage) (some-injective _ _ e')
                (insert-InImage _ ss (refl, ground arith) h)))
        e
    where
      none≢some : none ≡ some mapped → ⊥
      none≢some e = cc

  pub map_pe_sections-InImage :
      (left p : ℕ) (ss mapped : List Section)
      → All InImage ss
      → map_pe_sections left p ss ≡ some mapped
      → All InImage mapped
  unfolding map_pe_sections
  map_pe_sections-InImage zero p ss mapped h e = subst (All InImage) (some-injective _ _ e) h
  map_pe_sections-InImage (suc left) p ss mapped h e =
      let (next, e1, e2) = bind-some (map_pe_section p ss) _ mapped e in
      map_pe_sections-InImage left (p + section_bytes) next mapped
        (map_pe_section-InImage p ss next h e1) e2

-- What the lookups return satisfies what all sections do.
before_upper_bound-All :
    (P : Section → Type 0) (address : ℕ) (before : Option Section) (ss : List Section) (s : Section)
    → All P ss
    → (before ≡ some s → P s)
    → before_upper_bound address before ss ≡ some s
    → P s
unfolding before_upper_bound
before_upper_bound-All P address before [] s hs h e = h e
before_upper_bound-All P address before (t ∷ ts) s (ht, hts) h e =
    if-cases (λ r. r ≡ some s → P s) (ltb address t.base) (λ stop e'. h e')
      (λ on e'.
        before_upper_bound-All P address (some t) ts s hts
          (λ same. subst P (some-injective _ _ same) ht) e')
      e

check_section-some :
    (address : ℕ) (o : Option Section) (s : Section)
    → check_section address o ≡ some s
    → (o ≡ some s) × (s.base ≤ address) × (address < add64 s.base s.size)
unfolding check_section
check_section-some address none s e = absurd (never e)
  where
    never : none ≡ some s → ⊥
    never e' = cc
check_section-some address (some t) s e =
    if-cases
      (λ r. r ≡ some s → (some t ≡ some s) × (s.base ≤ address) × (address < add64 s.base s.size))
      (ltb address t.base || leb (add64 t.base t.size) address) (λ out e'. absurd (never e'))
      (λ in_here e'.
        subst (λ x. (some t ≡ some x) × (x.base ≤ address) × (address < add64 x.base x.size))
          (some-injective _ _ e') (refl, ground arith, ground arith))
      e
  where
    never : none ≡ some s → ⊥
    never e' = cc

found :
    (ss : List Section) (address : ℕ) (s : Section)
    → find_section ss address ≡ some s
    → check_section address (before_upper_bound address none ss) ≡ some s
unfolding find_section
found ss address s e = e

-- In an image whose sections stand at their own addresses inside the buffer, an address that
-- `Image::Find` accepts is the base plus an offset into the buffer, and it returns that offset; for
-- an image that does not reach the end of the address space.
pub find_address-InImage :
    (name_of : Bytes → ℕ → String) (m : Bytes) (n base address p : ℕ) (ss : List Section)
    → base + n < 2 ^ 64
    → All (InImage name_of m n base) ss
    → find_address ss address ≡ some p
    → (p < n) × (address ≡ base + p)
unfolding find_address
find_address-InImage name_of m n base address p ss top h e =
    elim (Option-cases (find_section ss address)) [
      | inl missing ↦ absurd (never (rw (missing, find_address) at e))
      | inr (s, is_s) ↦
          let (is_before, lo, hi) = check_section-some address _ s (found ss address s is_s) in
          let (at, fits) =
            before_upper_bound-All (InImage name_of m n base) address none ss s h
              (λ none_some. absurd (never' none_some)) is_before in
          let is_p = some-injective _ _ (rw (is_s, find_address) at e) in
          (omega (arith, at, fits, lo, hi, is_p, top), omega (arith, at, fits, lo, hi, is_p, top))
    ]
  where
    never : none ≡ some p → ⊥
    never e' = cc

    never' : {s : Section} → none ≡ some s → ⊥
    never' e' = cc
