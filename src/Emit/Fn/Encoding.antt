-- ===== src/Emit/Fn/Encoding.antt =====
-- The encoding of branches as the disassembler documents it, and the labels that the code collects.
use xenon_recomp.Emit.Insn.{InstId, jump_group, count_group, test_group, Insn}
use xenon_recomp.Emit.Targets.{branch_targets, jump_targets, count_targets, test_targets}
use xenon_recomp.Emit.Fn.{Program, branch_labels}
use mathlib.Core.List.{Memᴰ}
use xenon_recomp.Ppc.{byte_swap32, is_link, op, op_b, op_bc, branch_bi, branch_bd}
use xenon_recomp.Base.{
  ℕ, ◌+◌, ◌-◌, ◌/◌, ◌%◌, ◌^◌, ◌⊎◌, ◌<◌, ◌≤◌, ◌≡◌, ◌==◌, if-cases, List, [], ◌∷◌, All, some, arith,
}

-- The target of a branch at `a` whose signed displacement of `width` bits is `d` as an unsigned number;
-- operands are 32-bit.
abbrev pub Reaches : ℕ → ℕ → ℕ → ℕ → Type 0
Reaches width a d t =
    (t < 2 ^ 32)
    × ((d < 2 ^ (width - 1)) × (t ≡ a + d)
        ⊎ (2 ^ (width - 1) ≤ d) × (d < 2 ^ width) × (t + 2 ^ width ≡ a + d))

-- The two forms of a relative branch without link, by the fields of the instruction word: opcode 18
-- with a displacement of 26 bits, opcode 16 with one of 16 bits; the two low bits, `AA` and `LK`, are
-- clear.
abbrev pub IForm : ℕ → ℕ → ℕ → Type 0
IForm a w t = (w / 2 ^ 26 % 64 ≡ 18) × (w % 4 ≡ 0) × Reaches 26 a (w % 2 ^ 26) t

abbrev pub BForm : ℕ → ℕ → ℕ → Type 0
BForm a w t = (w / 2 ^ 26 % 64 ≡ 16) × (w % 4 ≡ 0) × Reaches 16 a (w % 2 ^ 16) t

-- The form of the word of an instruction with a target: `b` has the first, a conditional branch the
-- second.
unfoldable pub Encodes : ℕ → ℕ → InstId → Insn → Type 0
unfolding jump_targets count_targets test_targets
Encodes a w (jump_group x) i = All (IForm a w) (jump_targets x i)
Encodes a w (count_group x) i = All (BForm a w) (count_targets x i)
Encodes a w (test_group x) i = All (BForm a w) (test_targets x i)
Encodes a w id i = Unit

-- What the disassembler documents: the target operand of a branch is what the instruction's word
-- encodes.
unfoldable pub Decodes : Program → Type 0
unfolding Encodes byte_swap32
Decodes p =
    (a : ℕ) (i : Insn)
    → p.disassemble a (p.word a) ≡ some i
    → Encodes a (byte_swap32 (p.word a)) i.id i

IForm-labels : (a w t : ℕ) → IForm a w t → Memᴰ t (branch_labels a w)
unfolding branch_labels is_link op branch_bi
IForm-labels a w t (opcode, plain, (small, reaches)) =
    if-cases (λ ls. Memᴰ t ls) (is_link w) (λ e. absurd (ground (arith, e, plain)))
      (λ e.
        if-cases (λ ls. Memᴰ t ls) (op w == op_b)
          (λ b. Memᴰ.head (ground (arith, plain, small, reaches)))
          (λ b. absurd (ground (arith, b, opcode))))

BForm-labels : (a w t : ℕ) → BForm a w t → Memᴰ t (branch_labels a w)
unfolding branch_labels is_link op branch_bd
BForm-labels a w t (opcode, plain, (small, reaches)) =
    if-cases (λ ls. Memᴰ t ls) (is_link w) (λ e. absurd (ground (arith, e, plain)))
      (λ e.
        if-cases (λ ls. Memᴰ t ls) (op w == op_b) (λ b. absurd (ground (arith, b, opcode)))
          (λ b.
            if-cases (λ ls. Memᴰ t ls) (op w == op_bc)
              (λ c. Memᴰ.head (ground (arith, plain, small, reaches)))
              (λ c. absurd (ground (arith, c, opcode)))))

All-map : (P Q : ℕ → Type 0) (xs : List ℕ) → ((x : ℕ) → P x → Q x) → All P xs → All Q xs
All-map P Q [] f h = tt
All-map P Q (x ∷ xs) f (h, hs) = (f x h, All-map P Q xs f hs)

-- The labels are collected for every target.
pub Encodes-labels :
    (a w : ℕ) (id : InstId) (i : Insn)
    → Encodes a w id i
    → All (λ t. Memᴰ t (branch_labels a w)) (branch_targets id i)
unfolding Encodes branch_targets
Encodes-labels a w (jump_group x) i h = All-map _ _ (jump_targets x i) (IForm-labels a w) h
Encodes-labels a w (count_group x) i h = All-map _ _ (count_targets x i) (BForm-labels a w) h
Encodes-labels a w (test_group x) i h = All-map _ _ (test_targets x i) (BForm-labels a w) h
Encodes-labels a w id i h = tt
