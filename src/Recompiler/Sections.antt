-- ===== src/Recompiler/Sections.antt =====
-- `Recompiler::Analyse` of `XenonRecomp/recompiler.cpp`: the two scans of a code section for
-- functions. Positions are offsets from the start of the section's data.
use Prim.Native.String.{String}
use xenon_recomp.Base.{
  ℕ, zero, suc, ◌+◌, ◌-◌, ◌/◌, ◌^◌, ◌≤◌, ◌<◌, ◌≡◌, refl, sym, subst, Bool, true, false, ◌&&◌, ltb,
  leb, ltb→lt, ◌==◌, if◌then◌else◌, if-cases, Option, none, some, List, [], ◌∷◌, ◌++◌, All,
  All-append, add64, sub64, arith,
}
use xenon_recomp.Ppc.{op, is_link, branch_bi, op_b}
use xenon_recomp.Function.{Function}
use xenon_recomp.Image.{Section}
use xenon_recomp.Symbols.{Symbol, SymbolType, symbol_function, find_symbol, insert_symbol}

-- `functions` and `image.symbols`.
pub record Found : Type 0 where
  pub functions : List Function
  pub symbols : List Symbol

-- A function is put behind the others, with a symbol of its own; `name` formats `sub_{:X}`.
unfoldable pub add_function : (ℕ → String) → Function → Found → Found
add_function name fn f = record {
  functions = f.functions ++ (fn ∷ []);
  symbols =
      insert_symbol
        (record { name = name fn.base; address = fn.base; size = fn.size; type = symbol_function })
        f.symbols;
}

abbrev pub is_function : SymbolType → Bool
is_function symbol_function = true
is_function _ = false

-- The size of the function symbol that starts at `base`, if `find` returns one.
abbrev pub known_size : ℕ → Option Symbol → Option ℕ
known_size base none = none
known_size base (some s) = if s.address == base && is_function s.type then some s.size else none

-- `word` reads a section's code at an offset, `invalid` is `config.invalidInstructions`, and
-- `analyze_at base size` is `Function::Analyze` at an address.
module _ (word : ℕ → ℕ) (invalid : ℕ → Option ℕ) (analyze_at : ℕ → ℕ → Function)
    (name : ℕ → String) where
  -- The body of the scan for calls, at `pos`.
  unfoldable pub call_step : Section → ℕ → Found → Found
  unfolding add_function
  call_step s pos f =
      let insn = word pos in
      let address = add64 (add64 s.base pos) (branch_bi insn) in
      let end = add64 s.base s.size in
      if op insn == op_b && is_link insn && leb s.base address && ltb address end
      then elim (find_symbol address f.symbols) [
        | none ↦ add_function name (analyze_at address (sub64 end address)) f
        | some _ ↦ f
      ]
      else f

  -- The scan for calls from `pos` on, with `left` words to go.
  unfoldable pub scan_calls : Section → ℕ → ℕ → Found → Found
  unfolding call_step
  scan_calls s zero pos f = f
  scan_calls s (suc left) pos f = scan_calls s left (pos + 4) (call_step s pos f)

  -- `advance` before it is forced forward, and what is found: at an invalid instruction, at a
  -- function that is known, or at a function to be analyzed.
  unfoldable pub known_or_new : ℕ → ℕ → Option ℕ → Found → ℕ × Found
  unfolding add_function
  known_or_new base left (some n) f = (n, f)
  known_or_new base left none f = let fn = analyze_at base left in (fn.size, add_function name fn f)

  unfoldable pub advance_at : ℕ → ℕ → Option ℕ → ℕ → Found → ℕ × Found
  unfolding known_or_new
  advance_at pos left (some n) base f = (n, f)
  advance_at pos left none base f =
      known_or_new base left (known_size base (find_symbol base f.symbols)) f

  -- A zero-sized entry is skipped by one word.
  abbrev pub forced : ℕ → ℕ
  forced n = if n == 0 then 4 else n

  forced-positive : (n : ℕ) → 0 < forced n
  forced-positive n = ground arith

  -- The second scan of a section of `size` bytes; `none` means out of fuel.
  unfoldable pub scan_functions : ℕ → ℕ → ℕ → ℕ → Found → Option Found
  unfolding advance_at
  scan_functions zero size pos base f = none
  scan_functions (suc fuel) size pos base f =
      let step = advance_at pos (size - pos) (invalid (word pos)) base f in
      let rest =
        scan_functions fuel size (pos + forced step.0) (add64 base (forced step.0)) step.1 in
      if ltb pos size then rest else some f

  -- `Analyse` on a code section, both scans in a row.
  unfoldable pub scan_code : ℕ → Section → Found → Option Found
  unfolding scan_calls scan_functions
  scan_code fuel s f = scan_functions fuel s.size 0 s.base (scan_calls s ((s.size + 3) / 4) 0 f)

  -- Functions from `base` on, each inside the `size` bytes from `base`.
  abbrev pub StartsInside : ℕ → ℕ → Function → Type 0
  StartsInside base size fn = (base ≤ fn.base) × (fn.base < base + size)

  module _ (at_base : (base size : ℕ) → (analyze_at base size).base ≡ base) (P : Function → Type 0)
      (start size : ℕ) (wraps : start + size < 2 ^ 64)
      (inside : (fn : Function) → StartsInside start size fn → P fn) where
    advance_at-All :
        (pos : ℕ) (o : Option ℕ) (f : Found)
        → pos < size
        → All P f.functions
        → All P (advance_at pos (size - pos) o (start + pos) f).1.functions
    unfolding advance_at known_or_new add_function
    advance_at-All pos (some n) f lt h = h
    advance_at-All pos none f lt h =
        known (known_size (start + pos) (find_symbol (start + pos) f.symbols))
      where
        known : (o : Option ℕ) → All P (known_or_new (start + pos) (size - pos) o f).1.functions
        known (some n) = h
        known none =
            let b = at_base (start + pos) (size - pos) in
            All-append P f.functions _ h (
              inside (analyze_at (start + pos) (size - pos))
                  (omega (arith, b), omega (arith, b, lt)),
              tt,
            )

    scan_functions-Ends :
        (fuel pos base : ℕ) (f : Found)
        → 0 < fuel
        → size < fuel + pos
        → (pos < size → base ≡ start + pos)
        → All P f.functions
        → (f' : Found) × (scan_functions fuel size pos base f ≡ some f') × All P f'.functions
    unfolding scan_functions
    scan_functions-Ends zero pos base f some_fuel enough at h = absurd (omega (arith, some_fuel))
    scan_functions-Ends (suc fuel) pos base f some_fuel enough at h =
        if-cases (λ r. (f' : Found) × (r ≡ some f') × All P f'.functions) (ltb pos size)
          (λ e.
            let lt = ltb→lt pos size e in
            let step = advance_at pos (size - pos) (invalid (word pos)) base f in
            let more = forced-positive step.0 in
            let now =
              subst (λ b. All P (advance_at pos (size - pos) (invalid (word pos)) b f).1.functions)
                (sym (at lt)) (advance_at-All pos (invalid (word pos)) f lt h) in
            scan_functions-Ends fuel (pos + forced step.0) (add64 base (forced step.0)) step.1
              (omega (arith, enough, lt)) (omega (arith, enough, more))
              (λ lt'. let b = at lt in omega (arith, lt', b, wraps)) now)
          (λ e. (f, refl, h))

    call_step-All :
        (s : Section) (pos : ℕ) (f : Found)
        → s.base ≡ start
        → s.size ≡ size
        → All P f.functions
        → All P (call_step s pos f).functions
    unfolding call_step add_function
    call_step-All s pos f is_base is_size h =
        let insn = word pos in
        let address = add64 (add64 s.base pos) (branch_bi insn) in
        let end = add64 s.base s.size in
        if-cases (λ (r : Found). All P r.functions)
          (op insn == op_b && is_link insn && leb s.base address && ltb address end)
          (λ e.
            found address end (find_symbol address f.symbols) (ground (arith, e, is_base))
              (ground (arith, e, is_base, is_size, wraps)))
          (λ e. h)
      where
        found :
            (address end : ℕ) (o : Option Symbol)
            → start ≤ address
            → address < start + size
            → All P
                (elim o as (λ x. Found) [
                  | none ↦ add_function name (analyze_at address (sub64 end address)) f
                  | some _ ↦ f
                ]).functions
        found address end none lo hi =
            let b = at_base address (sub64 end address) in
            All-append P f.functions _ h (
              inside (analyze_at address (sub64 end address))
                  (omega (arith, b, lo), omega (arith, b, hi)),
              tt,
            )
        found address end (some s') lo hi = h

    scan_calls-All :
        (s : Section) (left pos : ℕ) (f : Found)
        → s.base ≡ start
        → s.size ≡ size
        → All P f.functions
        → All P (scan_calls s left pos f).functions
    unfolding scan_calls
    scan_calls-All s zero pos f is_base is_size h = h
    scan_calls-All s (suc left) pos f is_base is_size h =
        scan_calls-All s left (pos + 4) (call_step s pos f) is_base is_size
          (call_step-All s pos f is_base is_size h)

  -- Both scans of a code section end, whatever the code, the invalid instructions and the sizes of
  -- the functions are: fuel above the size of the section is enough. What holds of the functions
  -- before and of every function that starts inside the section holds of all functions then; for an
  -- analysis that keeps the base it is given and a section that ends below 2 ^ 64.
  pub scan_code-Ends :
      (at_base : (base size : ℕ) → (analyze_at base size).base ≡ base)
      → (P : Function → Type 0) (s : Section) (fuel : ℕ) (f : Found) → s.base + s.size < 2 ^ 64
      → s.size < fuel
      → ((fn : Function) → StartsInside s.base s.size fn → P fn)
      → All P f.functions
      → (f' : Found) × (scan_code fuel s f ≡ some f') × All P f'.functions
  unfolding scan_code
  scan_code-Ends at_base P s fuel f wraps enough inside h =
      scan_functions-Ends at_base P s.base s.size wraps inside fuel 0 s.base _
        (omega (arith, enough)) (omega (arith, enough)) (λ lt. omega arith)
        (scan_calls-All at_base P s.base s.size wraps inside s ((s.size + 3) / 4) 0 f refl refl h)
