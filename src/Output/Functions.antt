-- ===== src/Output/Functions.antt =====
-- Every function's text reaches the output file with the function's number.
use xenon_recomp.Output.{
  pragma_once, include_config, include_context, include_shared, raw, mapping_open, mapping_end,
  mapping_close, Text, FileName, config_h, context_h, shared_h, func_mapping, numbered, Disk,
  Session, println, print_all, is_empty, save_current_out_data, code_range, config_text,
  extern_texts, mapping_texts, fn_pieces, start_file, save_functions, recompile_all,
}
use xenon_recomp.Output.Files.{
  Held, Inside, Written, Inside-append, Inside-end, is_empty-append, is_empty-println, save-Held,
  save-below, save_named-empty,
}
use xenon_recomp.Base.{
  ℕ, zero, suc, ◌+◌, ◌-◌, ◌/◌, ◌%◌, ◌≤◌, ◌<◌, ◌≡◌, ◌≢◌, ◌⊎◌, inl, inr, refl, sym, ap, ◌∙◌, subst,
  true, false, ◌==◌, if-cases, size_max, Option, none, some, some-injective, List, [], ◌∷◌, ◌++◌,
  bind-some, get_elem?, arith, ==_iff,
}
use xenon_recomp.Function.{Function}
use xenon_recomp.Emit.Fn.{Program, recompile_fn}

module _ (d : Disk) (p : Program) where
  abbrev text_of : Function → Text
  text_of f = fn_pieces (recompile_fn p f).0

  -- The start of a file: text that was there is written, or still there.
  start_file-keeps :
      (i k : ℕ) (s t : Session)
      → start_file d p i s ≡ some t
      → k < s.file_index
      → (t.files (numbered k) ≡ s.files (numbered k)) × (s.file_index ≤ t.file_index)
  unfolding start_file
  start_file-keeps i k s t =
      if-cases
        (λ r.
          r ≡ some t
          → k < s.file_index
          → (t.files (numbered k) ≡ s.files (numbered k)) × (s.file_index ≤ t.file_index))
        (i % 256 == 0)
        (λ starts e lt.
          let (u, e1, e2) = bind-some (save_current_out_data d none s) _ t e in
          let e' = some-injective _ _ e2 in
          let (same, le) = save-below d k s u e1 lt in
          (
            ap (λ r. r.files (numbered k)) (sym e') ∙ same,
            omega (arith, le, ap (λ r. r.file_index) e'),
          ))
        (λ goes_on e lt. ground (arith, e))

  -- The start of a file goes on with the text, or writes it.
  start_file-cases :
      (i : ℕ) (s t : Session)
      → is_empty s.out ≡ false
      → start_file d p i s ≡ some t
      → ((t.out ≡ s.out) × (t.file_index ≡ s.file_index))
        ⊎ ((t.file_index ≡ s.file_index + 1) × Held d t.files (numbered s.file_index) s.out)
  unfolding start_file
  start_file-cases i s t full =
      if-cases
        (λ r.
          r ≡ some t
          → ((t.out ≡ s.out) × (t.file_index ≡ s.file_index))
            ⊎ ((t.file_index ≡ s.file_index + 1) × Held d t.files (numbered s.file_index) s.out))
        (i % 256 == 0)
        (λ starts e.
          let (u, e1, e2) = bind-some (save_current_out_data d none s) _ t e in
          let e' = some-injective _ _ e2 in
          let (_, index, held) = save-Held d s u full e1 in
          inr (
            ap (λ r. r.file_index) (sym e') ∙ index,
            subst (λ (fs : FileName → Option Text). Held d fs (numbered s.file_index) s.out)
                (ap (λ r. r.files) e') held,
          ))
        (λ goes_on e.
          let e' = some-injective _ _ e in
          inl (ap (λ r. r.out) (sym e'), ap (λ r. r.file_index) (sym e')))

  -- No later step changes a file with a lower number.
  save_functions-below :
      (fs : List Function) (i k : ℕ) (s s' : Session)
      → save_functions d p i fs s ≡ some s'
      → k < s.file_index
      → s'.files (numbered k) ≡ s.files (numbered k)
  unfolding save_functions print_all
  save_functions-below [] i k s s' h lt = (save-below d k s s' h lt).0
  save_functions-below (f ∷ fs) i k s s' h lt =
      let (t, e1, e2) = bind-some (start_file d p i s) _ s' h in
      let (same, le) = start_file-keeps i k s t e1 lt in
      save_functions-below fs (suc i) k (print_all (text_of f) t) s' e2 (omega (arith, lt, le))
      ∙ same

  -- Text that is in front of the functions to come is written to the current file.
  save_functions-Written :
      (fs : List Function) (i : ℕ) (t : Text) (s s' : Session)
      → is_empty s.out ≡ false
      → Inside t s.out
      → save_functions d p i fs s ≡ some s'
      → Written d s'.files (numbered s.file_index) t
  unfolding save_functions print_all
  save_functions-Written [] i t s s' full here h = (s.out, (save-Held d s s' full h).2, here)
  save_functions-Written (f ∷ fs) i t s s' full here h =
      let (u, e1, e2) = bind-some (start_file d p i s) _ s' h in
      elim (start_file-cases i s u full e1) [
        | inl (out, index) ↦
            subst (λ (n : ℕ). Written d s'.files (numbered n) t) index
              (save_functions-Written fs (suc i) t (print_all (text_of f) u) s'
                (subst (λ (o : Text). is_empty (o ++ text_of f) ≡ false) (sym out)
                  (is_empty-append s.out (text_of f) full))
                (subst (λ (o : Text). Inside t (o ++ text_of f)) (sym out)
                  (Inside-append t s.out (text_of f) here))
                e2)
        | inr (index, held) ↦ (
          s.out,
          subst
              (λ (o : Option Text).
                (x : Text) × (o ≡ some x) × ((x ≡ s.out) ⊎ (d.same x s.out ≡ true)))
              (sym (
                save_functions-below fs (suc i) s.file_index (print_all (text_of f) u) s' e2
                  (omega (arith, index))))
              held,
          here,
        )
      ]

  -- The state in front of function `i`, where the first file has number `b`.
  abbrev At : ℕ → ℕ → Session → Type 0
  At b i s =
      ((i ≡ 0) × (s.out ≡ []) × (s.file_index ≡ b))
      ⊎ ((0 < i) × (is_empty s.out ≡ false) × (s.file_index ≡ b + (i - 1) / 256))

  start_file-first :
      (i : ℕ) (s : Session)
      → i ≡ 0
      → is_empty s.out ≡ true
      → start_file d p i s ≡ some (println include_shared s)
  unfolding start_file save_current_out_data
  start_file-first i s first empty = rw (first, empty) refl

  start_file-At :
      (b i : ℕ) (s t : Session)
      → At b i s
      → start_file d p i s ≡ some t
      → (is_empty t.out ≡ false) × (t.file_index ≡ b + i / 256)
  unfolding start_file
  start_file-At b i s t (inl (first, empty, index)) h =
      let e' = some-injective _ _ (sym (start_file-first i s first (ap is_empty empty)) ∙ h) in
      (
        subst (λ (r : Session). is_empty r.out ≡ false) e' (is_empty-println s.out include_shared),
        omega (arith, first, index, ap (λ r. r.file_index) e'),
      )
  start_file-At b i s t (inr (later, full, index)) h =
      if-cases (λ r. r ≡ some t → (is_empty t.out ≡ false) × (t.file_index ≡ b + i / 256))
        (i % 256 == 0)
        (λ starts e.
          let (u, e1, e2) = bind-some (save_current_out_data d none s) _ t e in
          let e' = some-injective _ _ e2 in
          let (_, next, _) = save-Held d s u full e1 in
          let at : i % 256 ≡ 0 = (==_iff (i % 256) 0).0 starts in
          (
            subst (λ (r : Session). is_empty r.out ≡ false) e'
                (is_empty-println u.out include_shared),
            omega (arith, later, at, index, next, ap (λ r. r.file_index) e'),
          ))
        (λ goes_on e.
          let e' = some-injective _ _ e in
          let at : i % 256 ≢ 0 = ground (arith, goes_on) in
          (
            subst (λ (r : Session). is_empty r.out ≡ false) e' full,
            omega (arith, later, at, index, ap (λ r. r.file_index) e'),
          ))
        h

  At-functions :
      (fs : List Function) (b i j : ℕ) (f : Function) (s s' : Session)
      → At b i s
      → save_functions d p i fs s ≡ some s'
      → get_elem? fs j ≡ some f
      → Written d s'.files (numbered (b + (i + j) / 256)) (text_of f)
  unfolding save_functions print_all
  At-functions [] b i j f s s' here h e = absurd (cc)
  At-functions (g ∷ fs) b i zero f s s' here h e =
      let (t, e1, e2) = bind-some (start_file d p i s) _ s' h in
      let (full, index) = start_file-At b i s t here e1 in
      let same : g ≡ f = some-injective _ _ e in
      subst (λ (n : ℕ). Written d s'.files (numbered n) (text_of f)) (index ∙ omega arith)
        (subst (λ (x : Function). Written d s'.files (numbered t.file_index) (text_of x)) same
          (save_functions-Written fs (suc i) (text_of g) (print_all (text_of g) t) s'
            (is_empty-append t.out (text_of g) full) (Inside-end (text_of g) t.out) e2))
  At-functions (g ∷ fs) b i (suc j) f s s' here h e =
      let (t, e1, e2) = bind-some (start_file d p i s) _ s' h in
      let (full, index) = start_file-At b i s t here e1 in
      subst (λ (n : ℕ). Written d s'.files (numbered (b + n / 256)) (text_of f)) (omega arith)
        (At-functions fs b (suc i) j f (print_all (text_of g) t) s'
          (inr (omega arith, is_empty-append t.out (text_of g) full, omega (arith, index))) e2 e)

  -- Where the functions are written from an empty text on, the text of each function ends up in the
  -- file whose number is the next number plus the function's number by 256; or that file held a text
  -- of the same size and hash.
  save_functions-numbered :
      (fns : List Function) (j : ℕ) (f : Function) (s s' : Session)
      → s.out ≡ []
      → save_functions d p 0 fns s ≡ some s'
      → get_elem? fns j ≡ some f
      → Written d s'.files (numbered (s.file_index + j / 256)) (text_of f)
  save_functions-numbered fns j f s s' empty h e =
      subst (λ (n : ℕ). Written d s'.files (numbered (s.file_index + n / 256)) (text_of f))
        (omega arith) (At-functions fns s.file_index 0 j f s s' (inl (refl, empty, refl)) h e)

  -- Where an executable is recompiled, the text of each function ends up in the
  -- file `ppc_recomp.{}.cpp` whose number is the next number plus the function's number by 256; or
  -- that file held a text of the same size and hash.
  pub recompile_all-numbered :
      (base size : ℕ) (header : Option ℕ) (fns : List Function) (j : ℕ) (f : Function)
      (s s' : Session)
      → recompile_all d p base size header fns s ≡ some s'
      → get_elem? fns j ≡ some f
      → Written d s'.files (numbered (s.file_index + j / 256)) (fn_pieces (recompile_fn p f).0)
  unfolding recompile_all print_all
  recompile_all-numbered base size header fns j f s s' h e =
      let range = code_range p.sections (size_max, 0) in
      let t1 = config_text p.config base size range in
      let t2 : Text =
        pragma_once ∷ include_config ∷ elim header [ none ↦ [] | some k ↦ raw k ∷ [] ] in
      let t3 : Text = pragma_once ∷ include_config ∷ include_context ∷ extern_texts p.symbols in
      let t4 : Text =
        include_shared ∷ mapping_open ∷ mapping_texts p.symbols
        ++ (mapping_end ∷ mapping_close ∷ []) in
      if-cases
        (λ r.
          r ≡ some s'
          → Written d s'.files (numbered (s.file_index + j / 256)) (fn_pieces (recompile_fn p f).0))
        (range.0 == size_max) (λ no_code g. absurd (cc))
        (λ code g.
          let (s1, e1, h1) =
            bind-some (save_current_out_data d (some config_h) (print_all t1 s)) _ s' g in
          let (s2, e2, h2) =
            bind-some (save_current_out_data d (some context_h) (print_all t2 s1)) _ s' h1 in
          let (s3, e3, h3) =
            bind-some (save_current_out_data d (some shared_h) (print_all t3 s2)) _ s' h2 in
          let (s4, e4, h4) =
            bind-some (save_current_out_data d (some func_mapping) (print_all t4 s3)) _ s' h3 in
          let index : s4.file_index ≡ s.file_index =
            (save_named-empty d func_mapping (print_all t4 s3) s4 e4).1
            ∙ (save_named-empty d shared_h (print_all t3 s2) s3 e3).1
            ∙ (save_named-empty d context_h (print_all t2 s1) s2 e2).1
            ∙ (save_named-empty d config_h (print_all t1 s) s1 e1).1 in
          subst
            (λ (n : ℕ).
              Written d s'.files (numbered (n + j / 256)) (fn_pieces (recompile_fn p f).0))
            index
            (save_functions-numbered fns j f s4 s'
              (save_named-empty d func_mapping (print_all t4 s3) s4 e4).0 h4 e))
        h
