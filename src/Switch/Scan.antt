-- ===== src/Switch/Scan.antt =====
-- The backward scan of `ScanTable` in `XenonAnalyse/main.cpp`.
use xenon_recomp.Base.{
  ℕ, zero, suc, ◌+◌, ◌-◌, dec_lt, sym, ◌∙◌, ◌≤◌, ◌<◌, ◌≡◌, refl, ◌⊎◌, inl, inr, min, true, false,
  not, ◌&&◌, ◌==◌, if◌then◌else◌, if-cases, u32, u32_mod, arith, subst, Option, none, some, ap,
  ◌||◌,
}
use mathlib.Core.Bool.{false≢true}
use xenon_recomp.Switch.{
  Insn, SwitchTable, ScanState, has_id, has_opcode, is_range_branch, scan_step, scan_loop,
  scan_table, resized,
}

-- The table after the branch, and after the comparison.
abbrev pub with_default : SwitchTable → Insn → SwitchTable
with_default t branch = record t {
  default_label = if branch.has_second then branch.operand 1 else t.default_label;
}

abbrev pub with_limit : SwitchTable → ℕ → Insn → SwitchTable
with_limit t base compare = record t {
  labels = resized (u32 (compare.operand 2 + 1)) t.labels;
  base = base;
  r = compare.operand 1;
}

no_branch : (insn : Insn) → has_opcode insn ≡ false → is_range_branch insn ≡ false
unfolding is_range_branch
no_branch insn h = from_id insn.id h
  where
    from_id :
        (o : Option ℕ)
        → (elim o [ none ↦ false | some m ↦ true ]) ≡ false
        → ((elim o [ none ↦ false | some m ↦ m == 605 ])
            || (elim o [ none ↦ false | some m ↦ m == 707 ])
            || (elim o [ none ↦ false | some m ↦ m == 629 ])
            || (elim o [ none ↦ false | some m ↦ m == 729 ]))
          ≡ false
    from_id none e = refl
    from_id (some m) e = absurd cc

no_compare : (insn : Insn) → has_opcode insn ≡ false → has_id insn 569 ≡ false
no_compare insn h = from_id insn.id h
  where
    from_id :
        (o : Option ℕ)
        → (elim o [ none ↦ false | some m ↦ true ]) ≡ false
        → (elim o [ none ↦ false | some m ↦ m == 569 ]) ≡ false
    from_id none e = refl
    from_id (some m) e = absurd cc

module _ (back : ℕ → Insn) (base : ℕ) (t : SwitchTable) where
  -- The nearest branch that the scan looks for.
  abbrev pub FirstBranch : ℕ → Type 0
  FirstBranch j =
      (is_range_branch (back j) ≡ true) × ((m : ℕ) → m < j → is_range_branch (back m) ≡ false)

  -- The word `k` compares the condition register field that the branch `j` tests.
  abbrev pub Limits : ℕ → ℕ → Type 0
  Limits j k = (has_id (back k) 569 ≡ true) × ((back k).operand 0 ≡ (back j).operand 0)

  FirstBranch-unique : (j j' : ℕ) → FirstBranch j → FirstBranch j' → j ≡ j'
  FirstBranch-unique j j' (is, before) (is', before') = elim (dec_lt j j') [
    | yes lt ↦ let no = before' j lt in absurd (false≢true (sym no ∙ is))
    | no ge ↦ elim (dec_lt j' j) [
      | yes lt ↦ let no = before j' lt in absurd (false≢true (sym no ∙ is'))
      | no le ↦ same (λ lt. ge lt) (λ lt. le lt)
    ]
  ]
    where
      same : ¬ j < j' → ¬ j' < j → j ≡ j'
      same ge le = omega arith

  -- What the scan has seen in its first `i` words while it goes on.
  abbrev Searching : ℕ → ScanState → Type 0
  Searching i s =
      (s.found ≡ false)
      × (((s.cr ≡ u32_mod - 1)
            × (s.table ≡ t)
            × ((m : ℕ) → m < i → is_range_branch (back m) ≡ false))
          ⊎ ((j : ℕ) × FirstBranch j
              × (j < i)
              × (s.cr ≡ (back j).operand 0)
              × (s.table ≡ with_default t (back j))
              × ((m : ℕ) → j < m → m < i → ¬ Limits j m)))

  -- The nearest branch `j` and the nearest comparison `k` of its condition register field further
  -- back.
  abbrev pub Found : ℕ → SwitchTable → Type 0
  Found limit result =
      (j k : ℕ) × FirstBranch j
      × (j < k)
      × (k < limit)
      × Limits j k
      × ((m : ℕ) → j < m → m < k → ¬ Limits j m)
      × (result ≡ with_limit (with_default t (back j)) base (back k))

  -- No branch and comparison to take among the words.
  abbrev pub NoLimit : ℕ → Type 0
  NoLimit limit = (j k : ℕ) → FirstBranch j → j < k → k < limit → ¬ Limits j k

  abbrev Scanned : ℕ → ScanState → Type 0
  Scanned n s = Searching n s ⊎ ((s.found ≡ true) × Found n s.table)

  module _ (fields : (i : ℕ) → (back i).operand 0 < u32_mod - 1) where
    scan_step-Searching :
        (i : ℕ) (s : ScanState) → Searching i s → Scanned (i + 1) (scan_step (back i) base s)
    unfolding scan_step
    scan_step-Searching i s (going, inl (cr, same, unseen)) =
        if-cases (Scanned (i + 1)) (not (has_opcode (back i)))
          (λ none_here. inl (going, inl (cr, same, further (no_branch (back i) (ground arith)))))
          (λ opcode.
            if-cases (Scanned (i + 1)) (s.cr == u32_mod - 1 && is_range_branch (back i))
              (λ branch. inl (
                refl,
                inr (
                  i,
                  (ground arith, unseen),
                  omega arith,
                  refl,
                  ap (λ x. with_default x (back i)) same,
                  λ m lo hi. absurd (omega (arith, lo, hi)),
                ),
              ))
              (λ no.
                if-cases (Scanned (i + 1))
                  (not (s.cr == u32_mod - 1) && has_id (back i) 569 && (back i).operand 0 == s.cr)
                  (λ bad. absurd (ground (arith, bad, cr)))
                  (λ skip. inl (going, inl (cr, same, further (ground (arith, no, cr)))))))
      where
        further :
            is_range_branch (back i) ≡ false
            → (m : ℕ) → m < i + 1
            → is_range_branch (back m) ≡ false
        further here m lt = elim (dec_lt m i) [
          | yes below ↦ unseen m below
          | no above ↦
              subst (λ n. is_range_branch (back n) ≡ false) {x = i} (at_i (λ b. above b)) here
        ]
          where
            at_i : ¬ m < i → i ≡ m
            at_i n = omega arith
    scan_step-Searching i s (going, inr (j, first, lt, cr, same, unlimited)) =
        if-cases (Scanned (i + 1)) (not (has_opcode (back i)))
          (λ none_here.
            let no = no_compare (back i) (ground arith) in
            stay (λ (is, field). false≢true (sym no ∙ is)))
          (λ opcode.
            if-cases (Scanned (i + 1)) (s.cr == u32_mod - 1 && is_range_branch (back i))
              (λ bad. let below = fields j in absurd (ground (arith, bad, cr, below)))
              (λ no.
                if-cases (Scanned (i + 1))
                  (not (s.cr == u32_mod - 1) && has_id (back i) 569 && (back i).operand 0 == s.cr)
                  (λ limit. inr (
                    refl,
                    (
                      j,
                      i,
                      first,
                      lt,
                      omega arith,
                      (ground arith, ground (arith, cr)),
                      unlimited,
                      ap (λ x. with_limit x base (back i)) same,
                    ),
                  ))
                  (λ skip.
                    let below = fields j in
                    stay (λ (is, field). absurd (ground (arith, skip, cr, is, field, below))))))
      where
        stay : ¬ Limits j i → Scanned (i + 1) s
        stay here = inl (
          going,
          inr (
            j,
            first,
            omega (arith, lt),
            cr,
            same,
            λ m lo hi. elim (dec_lt m i) [
              | yes below ↦ unlimited m lo below
              | no above ↦ subst (λ n. ¬ Limits j n) {x = i} (at_i m hi (λ b. above b)) here
            ],
          ),
        )
          where
            at_i : (m : ℕ) → m < i + 1 → ¬ m < i → i ≡ m
            at_i m hi n = omega arith

    Found-le : (i n : ℕ) (r : SwitchTable) → i ≤ n → Found i r → Found n r
    Found-le i n r le (j, k, first, jk, lt, compare, nearest, same) =
        (j, k, first, jk, omega (arith, lt), compare, nearest, same)

    scan_loop-Found :
        (left i : ℕ) (s : ScanState)
        → Searching i s
        → Scanned (i + left) (scan_loop back base left i s)
    unfolding scan_loop
    scan_loop-Found zero i s h = inl (subst (λ n. Searching n s) {x = i} (omega arith) h)
    scan_loop-Found (suc left) i s h =
        let s' = scan_step (back i) base s in
        elim (scan_step-Searching i s h) [
          | inl on ↦
              let rest = scan_loop-Found left (i + 1) s' on in
              rw on.0 (
                subst (λ n. Scanned n (scan_loop back base left (i + 1) s')) {x = i + 1 + left}
                  (omega arith) rest)
          | inr (stop, at) ↦
              rw stop (inr (stop, Found-le (i + 1) (i + suc left) _ (omega arith) at))
        ]

    -- `ScanTable` with decoded condition register fields: among the words it looks at, at most 32
    -- and none in front of the section, it takes the nearest conditional branch and the nearest
    -- comparison further back on the branch's condition register field, and fills the table from
    -- them; only where there is no such comparison, the base and the labels of the table are as they
    -- were.
    pub scan_table-Found :
        (words_back : ℕ)
        → Found (min 32 words_back) (scan_table back base t words_back)
          ⊎ (NoLimit (min 32 words_back)
              × ((scan_table back base t words_back).base ≡ t.base)
              × ((scan_table back base t words_back).labels ≡ t.labels))
    unfolding scan_table
    scan_table-Found words_back =
        let n = min 32 words_back in
        elim (scan_loop-Found n 0 (record { cr = u32_mod - 1; table = t; found = false })
          (refl, inl (refl, refl, λ m lt. absurd (omega arith)))) [
            | inl (going, inl (cr, same, unseen)) ↦ inr (
              λ j k first lt hi h.
                  let no = unseen j (omega (arith, lt, hi)) in false≢true (sym no ∙ first.0),
              ap (λ x. x.base) same,
              ap (λ x. x.labels) same,
            )
            | inl (going, inr (j, first, lt, cr, same, unlimited)) ↦ inr (
              λ j' k first' lt' hi h.
                  let e = FirstBranch-unique j' j first' first in
                  unlimited k (omega (arith, e, lt')) (omega (arith, hi))
                    (subst (λ x. Limits x k) e h),
              ap (λ x. x.base) same,
              ap (λ x. x.labels) same,
            )
            | inr (stop, at) ↦ inl (Found-le (0 + n) n _ (omega arith) at)
          ]
