-- ===== src/Output/Files.antt =====
-- What a write leaves in the files.
use mathlib.Core.List.{append_assoc, append-nil}
use xenon_recomp.Base.{
  ℕ, ◌+◌, ◌≤◌, ◌<◌, ◌≡◌, ◌⊎◌, inl, inr, refl, sym, ap, ◌∙◌, subst, true, false, if-cases, if_true,
  if_false, Option-cases, Option, none, some, some-injective, [], ◌∷◌, ◌++◌, arith, ==_iff,
}
use xenon_recomp.Output.{
  Piece, Text, FileName, numbered, same_name, Disk, Session, write_file, should_write, save_as,
  save_by_name, is_empty, save_current_out_data,
}

-- A file holds a text, or one with the same size and the same hash.
abbrev pub Held : Disk → (FileName → Option Text) → FileName → Text → Type 0
Held d files name t =
    (held : Text) × (files name ≡ some held) × ((held ≡ t) ⊎ (d.same held t ≡ true))

-- A piece of text inside another.
abbrev pub Inside : Text → Text → Type 0
Inside t out = (pre : Text) × (post : Text) × (out ≡ pre ++ (t ++ post))

abbrev pub Written : Disk → (FileName → Option Text) → FileName → Text → Type 0
Written d files name t = (out : Text) × Held d files name out × Inside t out

pub Inside-append : (t out ts : Text) → Inside t out → Inside t (out ++ ts)
Inside-append t out ts (pre, post, e) = (pre, post ++ ts, ap (λ o. o ++ ts) e ∙ simp append_assoc)

pub Inside-end : (t out : Text) → Inside t (out ++ t)
Inside-end t out = (out, [], simp append-nil)

pub is_empty-append : (out ts : Text) → is_empty out ≡ false → is_empty (out ++ ts) ≡ false
is_empty-append [] ts h = absurd cc
is_empty-append (t ∷ out) ts h = refl

pub is_empty-println : (out : Text) (t : Piece) → is_empty (out ++ (t ∷ [])) ≡ false
is_empty-println [] t = refl
is_empty-println (x ∷ out) t = refl

module _ (d : Disk) where
  -- A file that is not written has the text.
  not_written :
      (name : FileName) (out : Text) (files : FileName → Option Text)
      → should_write d out (files name) ≡ false
      → Held d files name out
  unfolding should_write
  not_written name out files h = elim (Option-cases (files name)) [
    | inl missing ↦ absurd (ground (arith, rw missing at h))
    | inr (held, here) ↦ (held, here, inr (ground (arith, rw here at h)))
  ]

  -- The write of a numbered file.
  save_as-Held :
      (n : ℕ) (s s' : Session)
      → save_as d (numbered n) (n + 1) s ≡ some s'
      → (s'.out ≡ []) × (s'.file_index ≡ n + 1) × Held d s'.files (numbered n) s.out
  unfolding save_as write_file same_name
  save_as-Held n s s' =
      let P = λ (r : Option Session).
        r ≡ some s'
        → (s'.out ≡ []) × (s'.file_index ≡ n + 1) × Held d s'.files (numbered n) s.out in
      if-cases P (should_write d s.out (s.files (numbered n)))
        (λ write.
          if-cases P (d.opens (numbered n))
            (λ opens e.
              let e' = some-injective _ _ e in
              (
                ap (λ r. r.out) (sym e'),
                ap (λ r. r.file_index) (sym e'),
                (
                  s.out,
                  ap (λ r. r.files (numbered n)) (sym e') ∙ if_true _ _ ((==_iff n n).1 refl),
                  inl refl,
                ),
              ))
            (λ closed e. absurd (cc)))
        (λ keep e.
          let e' = some-injective _ _ e in
          (
            ap (λ r. r.out) (sym e'),
            ap (λ r. r.file_index) (sym e'),
            subst (λ (fs : FileName → Option Text). Held d fs (numbered n) s.out)
                (ap (λ r. r.files) e') (not_written (numbered n) s.out s.files keep),
          ))

  save_as-below :
      (n k : ℕ) (s s' : Session)
      → save_as d (numbered n) (n + 1) s ≡ some s'
      → k < n
      → s'.files (numbered k) ≡ s.files (numbered k)
  unfolding save_as write_file same_name
  save_as-below n k s s' h lt = ground (arith, h)

  -- `SaveCurrentOutData` without a name, where there is text.
  pub save-Held :
      (s s' : Session)
      → is_empty s.out ≡ false
      → save_current_out_data d none s ≡ some s'
      → (s'.out ≡ [])
        × (s'.file_index ≡ s.file_index + 1)
        × Held d s'.files (numbered s.file_index) s.out
  unfolding save_current_out_data save_by_name
  save-Held s s' full h = save_as-Held s.file_index s s' (sym (if_false _ _ full) ∙ h)

  pub save-below :
      (k : ℕ) (s s' : Session)
      → save_current_out_data d none s ≡ some s'
      → k < s.file_index
      → (s'.files (numbered k) ≡ s.files (numbered k)) × (s.file_index ≤ s'.file_index)
  unfolding save_current_out_data save_by_name
  save-below k s s' =
      if-cases
        (λ r.
          r ≡ some s'
          → k < s.file_index
          → (s'.files (numbered k) ≡ s.files (numbered k)) × (s.file_index ≤ s'.file_index))
        (is_empty s.out) (λ empty e lt. ground (arith, e))
        (λ full e lt.
          let (_, index, _) = save_as-Held s.file_index s s' e in
          (save_as-below s.file_index k s s' e lt, omega (arith, index)))

  is_empty-nil : (t : Text) → is_empty t ≡ true → t ≡ []
  is_empty-nil [] h = refl
  is_empty-nil (x ∷ t) h = absurd cc

  -- The write of a named file.
  pub save_named-empty :
      (name : FileName) (s s' : Session)
      → save_current_out_data d (some name) s ≡ some s'
      → (s'.out ≡ []) × (s'.file_index ≡ s.file_index)
  unfolding save_current_out_data save_by_name save_as
  save_named-empty name s s' h = ground (arith, is_empty-nil s.out)
