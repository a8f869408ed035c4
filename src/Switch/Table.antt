-- ===== src/Switch/Table.antt =====
-- What `ReadTable` of `XenonAnalyse/main.cpp` reads.
use xenon_recomp.Base.{
  ℕ, zero, suc, ◌+◌, ◌-◌, ◌*◌, ◌^◌, ◌≤◌, ◌<◌, ◌≡◌, refl, sym, ◌∙◌, ap, subst, inl, inr, Bool, true,
  false, not, ◌||◌, leb, leb→le, ◌==◌, if◌then◌else◌, if-cases, if_true, if_false, Bool-cases,
  Option, none, some, some-injective, Option-cases, List, [], ◌∷◌, length, get_elem?, bind-some,
  ltb, ltb→le, add32, add64, arith,
}
use xenon_recomp.Memory.{Bytes, be16, be32}
use xenon_recomp.Image.{Section, find_section, find_address}
use xenon_recomp.Switch.{Insn, SwitchTable}
use xenon_recomp.Switch.Read.{
  is_region_mapped, fill_labels, read_labels, read_computed, read_byteoffset, read_shortoffset,
  read_by_type, read_immediate, read_shift, safe_disassemble, read_mapped, read_table,
}

module _ (disassemble : ℕ → ℕ → Insn) (image : Bytes) (sections : List Section) where
  length-fill_labels :
      (entry : ℕ → ℕ) (stride p : ℕ) (labels : List ℕ)
      → length (fill_labels entry stride p labels) ≡ length labels
  unfolding fill_labels
  length-fill_labels entry stride p [] = refl
  length-fill_labels entry stride p (x ∷ xs) =
      ap suc (length-fill_labels entry stride (p + stride) xs)

  get_elem?-fill_labels :
      (entry : ℕ → ℕ) (stride p : ℕ) (labels : List ℕ) (i : ℕ)
      → i < length labels
      → get_elem? (fill_labels entry stride p labels) i ≡ some (entry (p + i * stride))
  unfolding fill_labels
  get_elem?-fill_labels entry stride p [] i lt = absurd (omega arith)
  get_elem?-fill_labels entry stride p (x ∷ xs) zero lt = ap (λ q. some (entry q)) (omega arith)
  get_elem?-fill_labels entry stride p (x ∷ xs) (suc i) lt =
      get_elem?-fill_labels entry stride (p + stride) xs i (omega (arith, lt))
      ∙ ap (λ q. some (entry q)) (next i stride)
    where
      next : (i stride : ℕ) → p + stride + i * stride ≡ p + suc i * stride
      next i stride = omega arith

  is_region_mapped_lem :
      (s : Section) (address n : ℕ)
      → find_section sections address ≡ some s
      → is_region_mapped sections address n ≡ leb (add64 address n) (add64 s.base s.size)
  unfolding is_region_mapped
  is_region_mapped_lem s address n e = rw (e, is_region_mapped) refl

  -- The labels are the entries of a table of `length labels` entries, `stride` bytes each, that
  -- starts at `p_offset` and lies in one section.
  abbrev pub ReadsFrom : ℕ → ℕ → (ℕ → ℕ) → List ℕ → List ℕ → Type 0
  ReadsFrom p_offset stride entry old new =
      (s : Section) × (find_section sections p_offset ≡ some s)
      × (add64 p_offset (length old * stride) ≤ add64 s.base s.size)
      × (length new ≡ length old)
      × ((i : ℕ)
          → i < length old
          → get_elem? new i ≡ some (entry (s.data_at + (p_offset - s.base) + i * stride)))

  read_labels-ReadsFrom :
      (p_offset stride : ℕ) (entry : ℕ → ℕ) (old new : List ℕ)
      → read_labels disassemble image sections p_offset stride entry old ≡ some new
      → ReadsFrom p_offset stride entry old new
  unfolding read_labels find_address
  read_labels-ReadsFrom p_offset stride entry old new h =
      elim (Option-cases (find_section sections p_offset)) [
        | inl e ↦ absurd (none≢some (if_same _ _ ∙ rw e at h))
        | inr (s, e) ↦
            mapped s e (rw (is_region_mapped_lem s p_offset (length old * stride) e) at (rw e at h))
      ]
    where
      if_same : (b : Bool) (x : Option (List ℕ)) → x ≡ (if b then x else x)
      if_same true x = refl
      if_same false x = refl

      none≢some : none ≡ some new → ⊥
      none≢some e = cc

      mapped :
          (s : Section)
          → find_section sections p_offset ≡ some s
          → (if leb (add64 p_offset (length old * stride)) (add64 s.base s.size)
              then some (fill_labels entry stride (s.data_at + (p_offset - s.base)) old)
              else none)
            ≡ some new
          → ReadsFrom p_offset stride entry old new
      mapped s e h' =
          elim (Bool-cases (leb (add64 p_offset (length old * stride)) (add64 s.base s.size))) [
            | inl fits ↦
                let is_new = some-injective _ _ (sym (if_true _ _ fits) ∙ h') in
                let p = s.data_at + (p_offset - s.base) in
                (
                  s,
                  e,
                  leb→le _ _ fits,
                  sym (ap length is_new) ∙ length-fill_labels entry stride p old,
                  λ i lt.
                      sym (ap (λ l. get_elem? l i) is_new)
                      ∙ get_elem?-fill_labels entry stride p old i lt,
                )
            | inr out ↦ absurd (none≢some (sym (if_false _ _ out) ∙ h'))
          ]

  -- How the labels come from the table data at `p_offset`, by the type of the table.
  abbrev pub ReadsByType : ℕ → SwitchTable → List ℕ → Type 0
  ReadsByType p_offset t new =
      (t.type ≡ 0 → ReadsFrom p_offset 4 (be32 image) t.labels new)
      × (t.type ≡ 1
          → (base shift : ℕ) × (read_immediate disassemble image sections (add64 t.base 0x10)
                (add64 t.base 0x14)
              ≡ some base)
            × (shift ≤ 24)
            × ReadsFrom p_offset 1 (λ p. add32 base (image p * 2 ^ shift)) t.labels new)
      × (t.type ≡ 2
          → (base : ℕ) × (read_immediate disassemble image sections (add64 t.base 0x0C)
                (add64 t.base 0x10)
              ≡ some base)
            × ReadsFrom p_offset 1 (λ p. add32 base (image p)) t.labels new)
      × (t.type ≡ 3
          → (base : ℕ) × (read_immediate disassemble image sections (add64 t.base 0x10)
                (add64 t.base 0x14)
              ≡ some base)
            × ReadsFrom p_offset 2 (λ p. add32 base (be16 image p)) t.labels new)

  read_shift-le :
      (address shift : ℕ) → read_shift disassemble image sections address ≡ some shift → shift ≤ 24
  unfolding read_shift
  read_shift-le address shift h =
      let (insn, e, h') =
        bind-some (safe_disassemble disassemble image sections address) _ shift h in
      if-cases (λ r. r ≡ some shift → shift ≤ 24) (ltb 24 (insn.operand 2))
        (λ big e'. absurd (none≢some e'))
        (λ small e'. subst (λ n. n ≤ 24) (some-injective _ _ e') (ltb→le _ _ small)) h'
    where
      none≢some : none ≡ some shift → ⊥
      none≢some e = cc

  read_by_type-Reads :
      (p_offset : ℕ) (t : SwitchTable) (new : List ℕ)
      → read_by_type disassemble image sections t.type p_offset t ≡ some new
      → ReadsByType p_offset t new
  unfolding read_by_type read_computed read_byteoffset read_shortoffset
  read_by_type-Reads p_offset t new h = (
    (λ e. read_labels-ReadsFrom p_offset 4 (be32 image) t.labels new (rw e at h)),
    (λ e.
        let (base, is_base, rest) = bind-some _ _ new (rw e at h) in
        let (shift, is_shift, reads) = bind-some _ _ new rest in
        (
          base,
          shift,
          is_base,
          read_shift-le _ _ is_shift,
          read_labels-ReadsFrom p_offset 1 _ t.labels new reads,
        )),
    (λ e.
        let (base, is_base, reads) = bind-some _ _ new (rw e at h) in
        (base, is_base, read_labels-ReadsFrom p_offset 1 _ t.labels new reads)),
    (λ e.
        let (base, is_base, reads) = bind-some _ _ new (rw e at h) in
        (base, is_base, read_labels-ReadsFrom p_offset 2 _ t.labels new reads)),
  )

  -- Where `ReadTable` succeeds, the table has labels, and each label comes from its own entry of a
  -- table of that many entries, all inside the section that maps the address the code computes:
  -- absolute words, shifted bytes with a shift of at most 24, bytes or halfwords from a base.
  pub read_table-Reads :
      (t t' : SwitchTable)
      → read_table disassemble image sections t ≡ some t'
      → (0 < length t.labels)
        × (p_offset : ℕ) × (read_immediate disassemble image sections t.base (add64 t.base 4)
            ≡ some p_offset)
        × ReadsByType p_offset t t'.labels
  unfolding read_table read_mapped
  read_table-Reads t t' h =
      elim (Bool-cases (length t.labels == 0 || not (is_region_mapped sections t.base 24))) [
        | inl bad ↦ absurd (none≢some (sym (if_true _ _ bad) ∙ h))
        | inr good ↦
            let (p_offset, is_offset, rest) = bind-some _ _ t' (sym (if_false _ _ good) ∙ h) in
            let (labels, reads, is_new) = bind-some _ _ t' rest in
            (
              ground (arith, good),
              p_offset,
              is_offset,
              subst (λ l. ReadsByType p_offset t l) (ap (λ x. x.labels) (some-injective _ _ is_new))
                  (read_by_type-Reads p_offset t labels reads),
            )
      ]
    where
      none≢some : none ≡ some t' → ⊥
      none≢some e = cc
