-- ===== src/Recompiler/Extend.antt =====
-- `Recompiler::Analyse` of `XenonRecomp/recompiler.cpp`: functions are extended over the labels of
-- their jump tables that lie behind them. A function is not changed once a later one looks at it,
-- so the loop over the functions is a recursion on the list.
use xenon_recomp.Base.{
  ℕ, ◌+◌, ◌-◌, ◌^◌, ◌≤◌, ◌<◌, ◌≡◌, refl, sym, subst, ◌⊎◌, inl, inr, max, Bool, false, ◌||◌, ltb,
  leb, leb→le, ◌==◌, if◌then◌else◌, if-cases, if-elim, Option-cases, none, some, List, [], ◌∷◌,
  ◌++◌, All, All-append, add64, arith,
}
use xenon_recomp.Function.{Function}
use xenon_recomp.Image.{Section, find_section}

-- A `RecompilerSwitchTable` with the address that maps to it.
pub record JumpTable : Type 0 where
  pub table_base : ℕ
  pub labels : List ℕ

abbrev pub max_switch_extension : ℕ
max_switch_extension = 0x1000

-- The labels at or behind `end`.
unfoldable pub labels_behind : ℕ → List ℕ → List ℕ
labels_behind end [] = []
labels_behind end (l ∷ ls) = let rest = labels_behind end ls in if leb end l then l ∷ rest else rest

-- `tailLabels`: of the tables that stand in the function.
unfoldable pub tail_labels : Function → List JumpTable → List ℕ
unfolding labels_behind
tail_labels fn [] = []
tail_labels fn (t ∷ ts) =
    let end = add64 fn.base fn.size in
    let rest = tail_labels fn ts in
    if ltb t.table_base fn.base || leb end t.table_base
    then rest
    else labels_behind end t.labels ++ rest

-- `newEnd` behind the labels; 0 where there are none.
unfoldable pub labels_end : List ℕ → ℕ
labels_end [] = 0
labels_end (l ∷ ls) = max (l + 4) (labels_end ls)

abbrev pub has_label : List ℕ → ℕ → Bool
has_label [] x = false
has_label (l ∷ ls) x = l == x || has_label ls x

-- The loop over the functions behind, which are in the order of their bases.
unfoldable pub grow_end : List ℕ → List Function → ℕ → ℕ
grow_end tails [] new_end = new_end
grow_end tails (g ∷ gs) new_end =
    let grown = if has_label tails g.base then max new_end (add64 g.base g.size) else new_end in
    let rest = grow_end tails gs grown in if ltb g.base new_end then rest else new_end

-- The function with its new end, where the section allows it.
unfoldable pub resize : List Section → Function → ℕ → Function
resize sections fn new_end = elim (find_section sections fn.base) [
  | none ↦ fn
  | some s ↦
      if leb new_end (add64 s.base s.size) then record fn { size = new_end - fn.base } else fn
]

-- The body of the loop for the function `fn` with the functions `gs` behind it.
unfoldable pub extend_function : List Section → List JumpTable → Function → List Function → Function
unfolding tail_labels labels_end grow_end resize
extend_function sections tables fn gs =
    let tails = tail_labels fn tables in
    let new_end = grow_end tails gs (labels_end tails) in
    if labels_end tails == 0 || ltb (add64 (add64 fn.base fn.size) max_switch_extension) new_end
    then fn
    else resize sections fn new_end

-- The loop over the functions.
unfoldable pub extend_functions : List Section → List JumpTable → List Function → List Function
unfolding extend_function
extend_functions sections tables [] = []
extend_functions sections tables (fn ∷ gs) =
    extend_function sections tables fn gs ∷ extend_functions sections tables gs

grow_end-le : (tails : List ℕ) (gs : List Function) (e : ℕ) → e ≤ grow_end tails gs e
unfolding grow_end
grow_end-le tails [] e = omega arith
grow_end-le tails (g ∷ gs) e =
    if-elim (λ x. e ≤ x) (ltb g.base e)
      (if-elim (λ x. e ≤ grow_end tails gs x) (has_label tails g.base)
        (let rest = grow_end-le tails gs (max e (add64 g.base g.size)) in omega (arith, rest))
        (grow_end-le tails gs e))
      (omega arith)

labels_end-All : (ls : List ℕ) (n : ℕ) → labels_end ls ≤ n → All (λ l. l + 4 ≤ n) ls
unfolding labels_end
labels_end-All [] n le = tt
labels_end-All (l ∷ ls) n le = (omega (arith, le), labels_end-All ls n (omega (arith, le)))

labels_behind-All : (end : ℕ) (ls : List ℕ) → All (λ l. end ≤ l) (labels_behind end ls)
unfolding labels_behind
labels_behind-All end [] = tt
labels_behind-All end (l ∷ ls) =
    if-cases (All (λ x. end ≤ x)) (leb end l) (λ e. (leb→le end l e, labels_behind-All end ls))
      (λ e. labels_behind-All end ls)

tail_labels-All :
    (fn : Function) (ts : List JumpTable) → All (λ l. add64 fn.base fn.size ≤ l) (tail_labels fn ts)
unfolding tail_labels
tail_labels-All fn [] = tt
tail_labels-All fn (t ∷ ts) =
    if-elim (All (λ l. add64 fn.base fn.size ≤ l))
      (ltb t.table_base fn.base || leb (add64 fn.base fn.size) t.table_base) (tail_labels-All fn ts)
      (All-append (λ l. add64 fn.base fn.size ≤ l) (labels_behind (add64 fn.base fn.size) t.labels)
        _ (labels_behind-All (add64 fn.base fn.size) t.labels) (tail_labels-All fn ts))

labels_end-above :
    (ls : List ℕ) (n : ℕ) → All (λ l. n ≤ l) ls → (labels_end ls ≡ 0) ⊎ (n ≤ labels_end ls)
unfolding labels_end
labels_end-above [] n h = inl refl
labels_end-above (l ∷ ls) n h = inr (omega (arith, h.0))

-- The function after the extension, against the function before: it has the same base and is no
-- smaller, it grows by at most the limit, and where it changes it reaches over all labels behind
-- it and stays in its section.
abbrev pub Extended : List Section → List JumpTable → Function → Function → Type 0
Extended sections tables fn fn' =
    (fn' ≡ fn)
    ⊎ ((fn'.base ≡ fn.base)
        × (fn.size ≤ fn'.size)
        × (fn'.size ≤ fn.size + max_switch_extension)
        × All (λ l. l + 4 ≤ fn.base + fn'.size) (tail_labels fn tables)
        × (s : Section) × (find_section sections fn.base ≡ some s)
        × (fn.base + fn'.size ≤ add64 s.base s.size))

resize_at :
    (sections : List Section) (fn : Function) (new_end : ℕ) (s : Section)
    → find_section sections fn.base ≡ some s
    → resize sections fn new_end
      ≡ (if leb new_end (add64 s.base s.size) then record fn { size = new_end - fn.base } else fn)
unfolding resize
resize_at sections fn new_end s e = rw (e, resize) refl

resize-Extended :
    (sections : List Section) (tables : List JumpTable) (fn : Function) (new_end : ℕ)
    → fn.base + fn.size < 2 ^ 64
    → fn.base + fn.size ≤ new_end
    → new_end ≤ fn.base + fn.size + max_switch_extension
    → labels_end (tail_labels fn tables) ≤ new_end
    → Extended sections tables fn (resize sections fn new_end)
unfolding resize
resize-Extended sections tables fn new_end wrap lo hi covers =
    elim (Option-cases (find_section sections fn.base)) [
      | inl e ↦ inl (rw (e, resize) refl)
      | inr (s, e) ↦ subst (Extended sections tables fn) (sym (resize_at sections fn new_end s e)) (
          if-cases (Extended sections tables fn) (leb new_end (add64 s.base s.size))
            (λ fits.
              let inside = leb→le _ _ fits in
              inr (
                refl,
                omega (arith, lo),
                omega (arith, lo, hi),
                labels_end-All (tail_labels fn tables) _ (omega (arith, lo, covers)),
                s,
                e,
                omega (arith, inside, lo),
              ))
            (λ out. inl refl))
    ]

-- Each function that the code extends for its jump tables keeps its base, grows by at most 0x1000
-- bytes, reaches over every label of its tables that lies behind it and stays in the section of its
-- base; any other function stays as it is. The function's end fits 64 bits.
pub extend_function-Extended :
    (sections : List Section) (tables : List JumpTable) (fn : Function) (gs : List Function)
    → fn.base + fn.size < 2 ^ 64
    → Extended sections tables fn (extend_function sections tables fn gs)
unfolding extend_function
extend_function-Extended sections tables fn gs wrap =
    let tails = tail_labels fn tables in
    let grows = grow_end-le tails gs (labels_end tails) in
    let above = labels_end-above tails (add64 fn.base fn.size) (tail_labels-All fn tables) in
    if-cases (Extended sections tables fn)
      (labels_end tails == 0
        || ltb (add64 (add64 fn.base fn.size) max_switch_extension)
            (grow_end tails gs (labels_end tails)))
      (λ same. inl refl)
      (λ go.
        resize-Extended sections tables fn (grow_end tails gs (labels_end tails)) wrap
          (ground (arith, go, above, grows, wrap)) (ground (arith, go, wrap)) grows)
