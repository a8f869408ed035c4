-- ===== src/Recompiler/Entries.antt =====
-- `Recompiler::Analyse` of `XenonRecomp/recompiler.cpp`: the functions of the configuration and of
-- the `.pdata` section.
use Prim.Native.String.{String}
use xenon_recomp.Base.{
  ℕ, zero, suc, ◌+◌, ◌*◌, ◌/◌, ◌%◌, ◌^◌, ◌≤◌, ◌≡◌, refl, inl, inr, ◌||◌, ltb, ◌==◌, if◌then◌else◌,
  if-cases, Option, none, some, Option-cases, List, [], ◌∷◌, All, All-append, add64, sub64, u32,
  arith,
}
use xenon_recomp.Memory.{Bytes, be32}
use xenon_recomp.Function.{Function}
use xenon_recomp.Image.{Section, find_section, find_address, find_name}
use xenon_recomp.Symbols.{Symbol, find_symbol}
use xenon_recomp.Recompiler.Sections.{Found, add_function}

abbrev plain_function : ℕ → ℕ → Function
plain_function base size = record { base = base; size = size; blocks = [] }

-- The bytes from an address to the end of a section.
abbrev room : Section → ℕ → ℕ
room s address = sub64 (add64 s.base s.size) address

-- `BeginAddress` and `FunctionLength`, which is counted in words, of a `.pdata` entry at `p`.
unfoldable pub begin_address : Bytes → ℕ → ℕ
unfolding be32
begin_address m p = be32 m p

unfoldable pub function_length : Bytes → ℕ → ℕ
unfolding be32
function_length m p = be32 m (p + 4) / 2 ^ 8 % 2 ^ 22

module _ (name : ℕ → String) (m : Bytes) (sections : List Section) where
  -- The body of the loop over `config.functions`.
  unfoldable pub configured_function : ℕ → ℕ → Found → Found
  unfolding add_function
  configured_function address size f = elim (find_section sections address) [
    | none ↦ f
    | some s ↦
        if size == 0
        then f
        else add_function name
            (plain_function address
              (if ltb (room s address) size then u32 (room s address) else size))
            f
  ]

  unfoldable pub configured_functions : List (ℕ × ℕ) → Found → Found
  unfolding configured_function
  configured_functions [] f = f
  configured_functions (c ∷ cs) f = configured_functions cs (configured_function c.0 c.1 f)

  -- A function of `.pdata`, clamped to its section.
  unfoldable pub pdata_function : ℕ → ℕ → Found → Found
  unfolding add_function
  pdata_function begin size f = elim (find_section sections begin) [
    | none ↦ add_function name (plain_function begin size) f
    | some s ↦
        add_function name
          (plain_function begin (if ltb (room s begin) size then room s begin else size)) f
  ]

  -- The body of the loop over the entries of `.pdata`.
  unfoldable pub pdata_entry : ℕ → ℕ → Found → Found
  unfolding pdata_function
  pdata_entry begin length f =
      if begin == 0 || length == 0 then f else elim (find_address sections begin) [
        | none ↦ f
        | some _ ↦ elim (find_symbol begin f.symbols) [
          | none ↦ pdata_function begin (length * 4) f
          | some _ ↦ f
        ]
      ]

  -- The loop, with `left` entries to go from `p` on.
  unfoldable pub pdata_entries : ℕ → ℕ → Found → Found
  unfolding pdata_entry
  pdata_entries zero p f = f
  pdata_entries (suc left) p f =
      pdata_entries left (p + 8) (pdata_entry (begin_address m p) (function_length m p) f)

  unfoldable pub pdata_functions : Found → Found
  unfolding pdata_entries find_name
  pdata_functions f = elim (find_name sections ".pdata") [
    | none ↦ f
    | some s ↦ if ltb s.size 8 then f else pdata_entries (s.size / 8) s.data_at f
  ]

  -- The function lies in the section of its base.
  abbrev pub InSection : Function → Type 0
  InSection fn =
      (s : Section) × (find_section sections fn.base ≡ some s) × (fn.size ≤ room s fn.base)

  add_function-All :
      (fn : Function) (f : Found)
      → InSection fn
      → All InSection f.functions
      → All InSection (add_function name fn f).functions
  unfolding add_function
  add_function-All fn f h hs = All-append InSection f.functions (fn ∷ []) hs (h, tt)

  configured_function-All :
      (address size : ℕ) (f : Found)
      → All InSection f.functions
      → All InSection (configured_function address size f).functions
  unfolding configured_function
  configured_function-All address size f h = elim (Option-cases (find_section sections address)) [
    | inl e ↦ rw (e, configured_function) h
    | inr (s, e) ↦
        rw (e, configured_function)
          (if-cases (λ (r : Found). All InSection r.functions) (size == 0) (λ empty. h)
            (λ some_size.
              add_function-All
                (plain_function address
                  (if ltb (room s address) size then u32 (room s address) else size))
                f (s, e, ground arith) h))
  ]

  pdata_function-All :
      (begin size : ℕ) (f : Found) (p : ℕ)
      → find_address sections begin ≡ some p
      → All InSection f.functions
      → All InSection (pdata_function begin size f).functions
  unfolding pdata_function find_address
  pdata_function-All begin size f p mapped h = elim (Option-cases (find_section sections begin)) [
    | inl e ↦ absurd (none≢some (rw (e, find_address) at mapped))
    | inr (s, e) ↦
        rw (e, pdata_function)
          (add_function-All
            (plain_function begin (if ltb (room s begin) size then room s begin else size)) f
            (s, e, ground arith) h)
  ]
    where
      none≢some : none ≡ some p → ⊥
      none≢some e = cc

  pdata_entry-All :
      (begin length : ℕ) (f : Found)
      → All InSection f.functions
      → All InSection (pdata_entry begin length f).functions
  unfolding pdata_entry
  pdata_entry-All begin length f h =
      if-cases (λ (r : Found). All InSection r.functions) (begin == 0 || length == 0) (λ skip. h)
        (λ go. mapped (find_address sections begin) refl)
    where
      known :
          (p : ℕ) (o : Option Symbol)
          → find_address sections begin ≡ some p
          → All InSection
              (elim o as (λ x. Found) [
                | none ↦ pdata_function begin (length * 4) f
                | some _ ↦ f
              ]).functions
      known p none e = pdata_function-All begin (length * 4) f p e h
      known p (some s) e = h

      mapped :
          (o : Option ℕ)
          → find_address sections begin ≡ o
          → All InSection
              (elim o as (λ x. Found) [
                | none ↦ f
                | some _ ↦ elim (find_symbol begin f.symbols) [
                  | none ↦ pdata_function begin (length * 4) f
                  | some _ ↦ f
                ]
              ]).functions
      mapped none e = h
      mapped (some p) e = known p (find_symbol begin f.symbols) e

  pdata_entries-All :
      (left p : ℕ) (f : Found)
      → All InSection f.functions
      → All InSection (pdata_entries left p f).functions
  unfolding pdata_entries
  pdata_entries-All zero p f h = h
  pdata_entries-All (suc left) p f h =
      pdata_entries-All left (p + 8) _
        (pdata_entry-All (begin_address m p) (function_length m p) f h)

  configured_functions-All :
      (cs : List (ℕ × ℕ)) (f : Found)
      → All InSection f.functions
      → All InSection (configured_functions cs f).functions
  unfolding configured_functions
  configured_functions-All [] f h = h
  configured_functions-All (c ∷ cs) f h =
      configured_functions-All cs _ (configured_function-All c.0 c.1 f h)

  -- Whatever the configuration and the `.pdata` section say, each function that they add lies in
  -- the section that contains its base, if the functions before do.
  pub pdata_functions-InSection :
      (cs : List (ℕ × ℕ)) (f : Found)
      → All InSection f.functions
      → All InSection (pdata_functions (configured_functions cs f)).functions
  unfolding pdata_functions
  pdata_functions-InSection cs f h =
      let before = configured_functions-All cs f h in
      elim (Option-cases (find_name sections ".pdata")) [
        | inl e ↦ rw (e, pdata_functions) before
        | inr (s, e) ↦
            rw (e, pdata_functions)
              (if-cases (λ (r : Found). All InSection r.functions) (ltb s.size 8) (λ small. before)
                (λ large. pdata_entries-All (s.size / 8) s.data_at _ before))
      ]
