-- ===== src/Tests/Translating.antt =====
-- The translation on concrete instructions and functions.
use xenon_recomp.Emit.{Ref, gpr, crf, xer, same_ref, ca, location, rename_stmt}
use xenon_recomp.Emit.Insn.{
  inst_adde, inst_addme, inst_b, inst_lwz, inst_rlwinm, inst_stw, InstId, add_group, jump_group,
  test_group, inst_beq, load_group, rotate_group, store_group, Insn, d_address,
}
use xenon_recomp.Emit.Config.{Config}
use xenon_recomp.Emit.Arith.{add_case}
use xenon_recomp.Emit.Shifts.{compute_mask}
use xenon_recomp.Emit.Targets.{targets, jump_targets, test_targets}
use xenon_recomp.Emit.Branches.{jump_case, test_case}
use xenon_recomp.Emit.Fn.{
  Program, is_label, FnState, fn_end, fn_count, run_fn, fn_text, recompile_fn,
}
use xenon_recomp.Emit.Translate.{EmitState}
use xenon_recomp.Emit.Fn.Declared.{IsScoped, recompile_fn-IsScoped}
use xenon_recomp.Emit.Fn.Closed.{run_fn-IsClosed}
use xenon_recomp.Emit.Fn.Encoding.{Decodes, Encodes}
use xenon_recomp.Emit.Fn.Listed.{nth_handled, recompile_fn_iff}
use xenon_recomp.Cxx.{Host, Machine, offset}
use xenon_recomp.Cxx.Eval.{eval, exec}
use xenon_recomp.Cxx.Carry.{adde, carry_lines, addends, IsSum, carry_lines-IsSum, addme_lines-carry}
use xenon_recomp.Cxx.Rotate.{
  rlwinm, rotate_lines, HasRotateFields, rotated_digit, rotate_lines-digits,
}
use xenon_recomp.Cxx.Put.{IsPut}
use xenon_recomp.Cxx.Access.{d_effective, d_address_iff}
use xenon_recomp.Cxx.StoreLoad.{whole, store_lines, load_lines, load_lines-store_lines}
use xenon_recomp.Cxx.Order.{cmpw, compare_lines, comparison, IsOrdered, compare_lines-IsOrdered}
use mathlib.Core.List.{Memᴰ}
use xenon_recomp.Function.{Function}
use xenon_recomp.Image.{Section, find_section}
use xenon_recomp.Emit.Shifts.Mask.{in_mask, compute_mask-bit}
use xenon_recomp.Ppc.{byte_swap32, is_link, op, branch_bi, branch_bd}
use xenon_recomp.Base.{
  ℕ, ◌-◌, ◌+◌, ◌<◌, ◌≡◌, ◌≢◌, ◌↔◌, ◌⊎◌, inl, inr, Bool-cases, refl, true, false, ◌==◌, ==_iff,
  if◌then◌else◌, some-injective, subst, sym, none, some, [], ◌∷◌, ◌++◌, arith, ◌^◌, ◌%◌, bit,
}

abbrev host : Host
host = record { binary = λ op t x y. 0; unary = λ op t x. 0; convert = λ s t x. x; read = λ e. 0 }

-- `r1` is near the end of 32 bits, `r2` is 5, and the carry is set.
abbrev machine : Machine
machine = record {
  word = λ n. elim n [ gpr k ↦ if k == 1 then 0xFFFFFFFE else if k == 2 then 5 else 0 | _ ↦ 0 ];
  flags = λ n f. elim n [ xer ↦ 1 | _ ↦ 0 ];
  mem = λ p. 0;
}

-- An instruction with a dot on `r3`, `r1` and `r2`.
abbrev three : InstId → Insn
three id = record { id = id; operands = λ k. if k == 0 then 3 else k; dot = true }

abbrev adde_insn : Insn
adde_insn = three (add_group inst_adde)

carry_lines-IsSum_example :
    (m : Machine) × (exec host (carry_lines adde adde_insn) machine ≡ some m)
    × IsSum (gpr 3) (addends adde adde_insn machine) machine m
carry_lines-IsSum_example =
    carry_lines-IsSum host adde adde_insn machine
      (omega arith, omega arith, omega arith, omega arith)

addme_lines-carry_example :
    (m : Machine) × (exec host (add_case inst_addme adde_insn) machine ≡ some m)
    × (m.word (gpr 3) ≡ (0xFFFFFFFE % 2 ^ 32 + 1 + (2 ^ 32 - 1)) % 2 ^ 32)
    × (m.flags xer ca ≡ 0)
addme_lines-carry_example = addme_lines-carry host adde_insn machine (omega arith)

-- `rlwinm r3, r1, 2, 3, 4`.
abbrev rlwinm_insn : Insn
rlwinm_insn = three (rotate_group inst_rlwinm)

rotate_lines-digits_example :
    (m : Machine) × (x : ℕ) × (exec host (rotate_lines rlwinm rlwinm_insn) machine ≡ some m)
    × IsPut (gpr 3) x machine m
    × ((k : ℕ) → k < 64 → bit x k ≡ rotated_digit rlwinm rlwinm_insn (machine.word (gpr 1)) k)
unfolding HasRotateFields
rotate_lines-digits_example =
    rotate_lines-digits host rlwinm rlwinm_insn machine (omega arith, omega arith, omega arith)

compute_mask-bit_example :
    bit (compute_mask 60 3) 62 ≡ (if in_mask (60 % 64) (3 % 64) (63 - 62) then 1 else 0)
compute_mask-bit_example = compute_mask-bit 60 3 62 (omega arith)

-- `stw r1, 1(r2)` and `lwz r3, 1(r2)`.
abbrev access : ℕ → InstId → Insn
access n id = record { id = id; operands = λ k. if k == 0 then n else k; dot = false }

load_lines-store_lines_example :
    (m : Machine) × (exec host
        (store_lines whole (access 1 (store_group inst_stw))
          ++ load_lines whole (access 3 (load_group inst_lwz)))
        machine
      ≡ some m)
    × (m.word (gpr 3) ≡ 0xFFFFFFFE % 2 ^ 32)
    × ((n : Ref) → same_ref (gpr 3) n ≡ false → m.word n ≡ machine.word n)
load_lines-store_lines_example =
    load_lines-store_lines host whole (access 1 (store_group inst_stw))
      (access 3 (load_group inst_lwz)) machine (omega arith) refl refl

-- `lwz r3, -4(0)`: the displacement is negative and there is no base register.
abbrev absolute : Insn
absolute = record {
  id = load_group inst_lwz;
  operands = λ k. if k == 0 then 3 else if k == 1 then 0xFFFFFFFC else 0;
  dot = false;
}

d_address_iff_example :
    (offset host (eval host machine (d_address absolute 2 1)) ≡ d_effective absolute 2 1 machine)
    ↔ ((absolute.operands 2 ≢ 0) ⊎ (absolute.operands 1 < 2 ^ 15))
d_address_iff_example = d_address_iff host absolute 2 1 machine (inr (omega arith, omega arith))

compare_lines-IsOrdered_example :
    (m : Machine) × (exec host (compare_lines cmpw adde_insn) machine ≡ some m)
    × IsOrdered (crf 3) (comparison cmpw adde_insn machine) machine m
compare_lines-IsOrdered_example =
    compare_lines-IsOrdered host cmpw adde_insn machine (omega arith) (omega arith) (omega arith)

-- A function of two words at 0x1000: a branch to the second, which is no known opcode.
abbrev pub config : Config
config = record {
  skip_lr = false;
  ctr_as_local = true;
  xer_as_local = true;
  reserved_as_local = true;
  skip_msr = false;
  cr_as_local = true;
  non_argument_as_local = true;
  non_volatile_as_local = true;
  long_jmp_address = 0;
  set_jmp_address = 0;
  switch_tables = λ a. none;
  hooks = λ a. none;
}

abbrev pub branch_insn : Insn
branch_insn = record { id = jump_group inst_b; operands = λ k. 0x1004; dot = false }

abbrev pub code : Section
code = record { name = ".text"; base = 0x1000; size = 0x100; flags = 2; data_at = 0 }

abbrev pub program : Program
program = record {
  config = config;
  sections = code ∷ [];
  symbols = [];
  word = λ a. 0x04000048;
  disassemble = λ a w. if a == 0x1000 then some branch_insn else none;
}

abbrev pub function : Function
function = record { base = 0x1000; size = 8; blocks = [] }

-- `beq` to the next word, which is a `b` back.
abbrev looping : Program
looping = record program {
  word = λ a. if a == 0x1000 then 0x04008241 else 0xFCFFFF4B;
  disassemble = λ a w.
      if a == 0x1000
      then some (record {
        id = test_group inst_beq;
        operands = λ k. if k == 1 then 0x1004 else 0;
        dot = false;
      })
      else if a == 0x1004
      then some (record { id = jump_group inst_b; operands = λ k. 0x1000; dot = false })
      else none;
}

looping-Decodes : Decodes looping
unfolding Decodes Encodes byte_swap32 jump_targets test_targets
looping-Decodes a = elim (Bool-cases (a == 0x1000)) [
  | inl first ↦
      subst
        (λ (b : ℕ).
          (i : Insn)
          → looping.disassemble b (looping.word b) ≡ some i
          → Encodes b (byte_swap32 (looping.word b)) i.id i)
        (sym ((==_iff a 0x1000).0 first))
        (λ i h.
          subst (λ (j : Insn). Encodes 0x1000 0x41820004 j.id j) (some-injective _ _ h)
            ((omega arith, omega arith, (omega arith, inl (omega arith, omega arith))), tt))
  | inr other ↦ elim (Bool-cases (a == 0x1004)) [
    | inl second ↦
        subst
          (λ (b : ℕ).
            (i : Insn)
            → looping.disassemble b (looping.word b) ≡ some i
            → Encodes b (byte_swap32 (looping.word b)) i.id i)
          (sym ((==_iff a 0x1004).0 second))
          (λ i h.
            subst (λ (j : Insn). Encodes 0x1004 0x4BFFFFFC j.id j) (some-injective _ _ h)
              (
                (
                  omega arith,
                  omega arith,
                  (omega arith, inr (omega arith, omega arith, omega arith)),
                ),
                tt,
              ))
    | inr none_there ↦ λ i h. absurd (no_insn i (rw (other, none_there) at h))
  ]
]
  where
    no_insn : (i : Insn) → none ≡ some i → ⊥
    no_insn i e = cc

run_fn-IsClosed_example :
    Memᴰ (location 0x1004) (EmitState.out (FnState.emit (run_fn looping function code)))
unfolding targets run_fn is_label is_link byte_swap32 op branch_bi branch_bd jump_case rename_stmt
    test_case
run_fn-IsClosed_example =
    run_fn-IsClosed looping function code 0x1004 looping-Decodes (Memᴰ.head refl) (omega arith)
      (omega arith) (omega arith)

recompile_fn_iff_example :
    ((recompile_fn program function).1 ≡ true)
    ↔ ((k : ℕ) → k < fn_count function (fn_end function code) → nth_handled program 0x1000 k ≡ true)
unfolding find_section
recompile_fn_iff_example = recompile_fn_iff program function code (omega arith) refl

recompile_fn-IsScoped_example : IsScoped (fn_text (run_fn program function code))
unfolding recompile_fn find_section
recompile_fn-IsScoped_example =
    recompile_fn-IsScoped program function (fn_text (run_fn program function code)) true refl
