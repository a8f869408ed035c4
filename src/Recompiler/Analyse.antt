-- ===== src/Recompiler/Analyse.antt =====
-- `Recompiler::Analyse` of `XenonRecomp/recompiler.cpp` from its parts: the helpers, the configured
-- functions and those of `.pdata`, the scans of the code sections, the sort and the extension.
use Prim.Native.String.{String}
use xenon_recomp.Base.{
  ℕ, ◌+◌, ◌-◌, ◌^◌, ◌≤◌, ◌<◌, ◌≡◌, refl, sym, subst, true, leb, if◌then◌else◌, if-cases, if-elim,
  Option, some, List, [], ◌∷◌, All, arith, ◌>>=◌,
}
use xenon_recomp.Memory.{Bytes, be32}
use xenon_recomp.Function.{Function}
use xenon_recomp.Image.{Section}
use xenon_recomp.Symbols.{Symbol}
use xenon_recomp.Crt.Scan.{CrtHelperAddresses, is_code}
use xenon_recomp.Recompiler.Helpers.{add_helpers}
use xenon_recomp.Recompiler.Sections.{Found, scan_code, scan_code-Ends}
use xenon_recomp.Recompiler.Entries.{configured_functions, pdata_functions}
use xenon_recomp.Recompiler.Extend.{JumpTable, extend_function, extend_functions, resize}

-- Insertion by the base, as in `std::sort`, which leaves open the order of equal bases.
unfoldable pub insert_function : Function → List Function → List Function
insert_function f [] = f ∷ []
insert_function f (g ∷ gs) = if leb f.base g.base then f ∷ g ∷ gs else g ∷ insert_function f gs

unfoldable pub sort_functions : List Function → List Function
sort_functions [] = []
sort_functions (f ∷ fs) = insert_function f (sort_functions fs)

-- `helper_name` formats the name of a helper, by its number in the order of the code, and a register;
-- `name` formats `sub_{:X}`; `invalid` is `config.invalidInstructions` and `analyze_at` is
-- `Function::Analyze` at an address.
module _ (helper_name : ℕ → ℕ → String) (name : ℕ → String) (image : Bytes) (invalid : ℕ → Option ℕ)
    (analyze_at : ℕ → ℕ → Function) where
  -- The loop over the sections; none means out of fuel.
  unfoldable pub scan_sections : List Section → Found → Option Found
  scan_sections [] f = some f
  scan_sections (s ∷ ss) f = do
    scanned ←
        if is_code s
        then scan_code (λ pos. be32 image (s.data_at + pos)) invalid analyze_at name (s.size + 1) s
            f
        else some f
    scan_sections ss scanned

  -- What is found in front of the scans.
  unfoldable pub known_functions :
      List Section → CrtHelperAddresses → List (ℕ × ℕ) → List Symbol → Found
  known_functions sections helpers configured symbols = pdata_functions name image sections (
      configured_functions name image sections configured (
        add_helpers helper_name helpers (128 - 14) 14
          (record { functions = []; symbols = symbols })))

  -- `Analyse`.
  unfoldable pub analyse :
      List Section → CrtHelperAddresses → List (ℕ × ℕ) → List JumpTable → List Symbol → Option Found
  analyse sections helpers configured tables symbols = do
    f ← scan_sections sections (known_functions sections helpers configured symbols)
    some (record {
      functions = extend_functions sections tables (sort_functions f.functions);
      symbols = f.symbols;
    })

-- No base is above the next.
abbrev pub IsSorted : ℕ → List Function → Type 0
IsSorted low [] = Unit
IsSorted low (f ∷ fs) = (low ≤ f.base) × IsSorted f.base fs

insert_function-IsSorted :
    (low : ℕ) (f : Function) (fs : List Function)
    → low ≤ f.base
    → IsSorted low fs
    → IsSorted low (insert_function f fs)
unfolding insert_function
insert_function-IsSorted low f [] h s = (h, tt)
insert_function-IsSorted low f (g ∷ gs) h (le, s) =
    if-cases (IsSorted low) (leb f.base g.base) (λ before. (h, (ground arith, s)))
      (λ behind. (le, insert_function-IsSorted g.base f gs (ground arith) s))

sort_functions-IsSorted : (fs : List Function) → IsSorted 0 (sort_functions fs)
unfolding sort_functions
sort_functions-IsSorted [] = tt
sort_functions-IsSorted (f ∷ fs) =
    insert_function-IsSorted 0 f (sort_functions fs) (omega arith) (sort_functions-IsSorted fs)

module _ (P : Function → Type 0) where
  insert_function-All :
      (f : Function) (fs : List Function) → P f → All P fs → All P (insert_function f fs)
  unfolding insert_function
  insert_function-All f [] h hs = (h, tt)
  insert_function-All f (g ∷ gs) h (hg, hgs) =
      if-elim (All P) (leb f.base g.base) (h, (hg, hgs)) (hg, insert_function-All f gs h hgs)

  sort_functions-All : (fs : List Function) → All P fs → All P (sort_functions fs)
  unfolding sort_functions
  sort_functions-All [] h = tt
  sort_functions-All (f ∷ fs) (h, hs) =
      insert_function-All f (sort_functions fs) h (sort_functions-All fs hs)

module _ (sections : List Section) (tables : List JumpTable) where
  extend_function-base :
      (f : Function) (gs : List Function) → (extend_function sections tables f gs).base ≡ f.base
  unfolding extend_function resize
  extend_function-base f gs = ground arith

  extend_functions-IsSorted :
      (low : ℕ) (fs : List Function)
      → IsSorted low fs
      → IsSorted low (extend_functions sections tables fs)
  unfolding extend_functions
  extend_functions-IsSorted low [] s = tt
  extend_functions-IsSorted low (f ∷ fs) (h, s) =
      let e = extend_function-base f fs in
      (
        omega (arith, e, h),
        subst (λ (b : ℕ). IsSorted b (extend_functions sections tables fs)) (sym e)
            (extend_functions-IsSorted f.base fs s),
      )

  extend_functions-All :
      (Q : ℕ → Type 0) (fs : List Function)
      → All (λ f. Q f.base) fs
      → All (λ f. Q f.base) (extend_functions sections tables fs)
  unfolding extend_functions
  extend_functions-All Q [] h = tt
  extend_functions-All Q (f ∷ fs) (h, hs) =
      (subst Q (sym (extend_function-base f fs)) h, extend_functions-All Q fs hs)

-- Each code section ends below 2 ^ 64, and `Q` holds of every address inside it.
abbrev pub CodeInside : (Q : ℕ → Type 0) → Section → Type 0
CodeInside Q s =
    (is_code s ≡ true)
    → (s.base + s.size < 2 ^ 64) × ((a : ℕ) → s.base ≤ a → a < s.base + s.size → Q a)

module _ (helper_name : ℕ → ℕ → String) (name : ℕ → String) (image : Bytes) (invalid : ℕ → Option ℕ)
    (analyze_at : ℕ → ℕ → Function) (at_base : (base size : ℕ) → (analyze_at base size).base ≡ base)
    (Q : ℕ → Type 0) where
  scan_sections-Ends :
      (ss : List Section) (f : Found)
      → All (CodeInside Q) ss
      → All (λ fn. Q fn.base) f.functions
      → (f' : Found) × (scan_sections helper_name name image invalid analyze_at ss f ≡ some f')
        × All (λ fn. Q fn.base) f'.functions
  unfolding scan_sections
  scan_sections-Ends [] f ins h = (f, refl, h)
  scan_sections-Ends (s ∷ ss) f (inside, ins) h =
      if-cases
        (λ (r : Option Found).
          (f' : Found) × ((r
              >>= (λ scanned. scan_sections helper_name name image invalid analyze_at ss scanned))
            ≡ some f')
          × All (λ fn. Q fn.base) f'.functions)
        (is_code s)
        (λ e.
          let scanned =
            scan_code-Ends (λ pos. be32 image (s.data_at + pos)) invalid analyze_at name at_base
              (λ fn. Q fn.base) s (s.size + 1) f (inside e).0 (omega arith)
              (λ fn starts. (inside e).1 fn.base starts.0 starts.1) h in
          let rest = scan_sections-Ends ss scanned.0 ins scanned.2 in
          (rest.0, rw (scanned.1, ◌>>=◌) rest.1, rest.2))
        (λ e. scan_sections-Ends ss f ins h)

  -- `Analyse` ends on every image whose code sections end below 2 ^ 64, and leaves the functions in
  -- the order of their bases. What holds of the bases of the helpers, of the configured functions and
  -- of those of `.pdata`, and of every address inside a code section, holds of the base of every
  -- function, whatever the jump tables extend; for an analysis that keeps the base it is given.
  pub analyse-IsSorted :
      (sections : List Section) (helpers : CrtHelperAddresses) (configured : List (ℕ × ℕ))
      (tables : List JumpTable) (symbols : List Symbol)
      → All (CodeInside Q) sections
      → All
          (λ fn. Q fn.base)
          (known_functions helper_name name image invalid analyze_at sections helpers configured
            symbols).functions
      → (f : Found) × (analyse helper_name name image invalid analyze_at sections helpers configured
            tables symbols
          ≡ some f)
        × IsSorted 0 f.functions
        × All (λ fn. Q fn.base) f.functions
  unfolding analyse
  analyse-IsSorted sections helpers configured tables symbols inside known =
      let before =
        known_functions helper_name name image invalid analyze_at sections helpers configured
          symbols in
      let scanned = scan_sections-Ends sections before inside known in
      let sorted = sort_functions scanned.0.functions in
      (
        record { functions = extend_functions sections tables sorted; symbols = scanned.0.symbols },
        rw (scanned.1) refl,
        extend_functions-IsSorted sections tables 0 sorted
            (sort_functions-IsSorted scanned.0.functions),
        extend_functions-All sections tables Q sorted
            (sort_functions-All (λ fn. Q fn.base) scanned.0.functions scanned.2),
      )
