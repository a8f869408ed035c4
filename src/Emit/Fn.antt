-- ===== src/Emit/Fn.antt =====
-- `Recompiler::Recompile` of a function: the labels, the loop over its instructions and the
-- declarations of its local variables.
pub mod Recorded
pub mod Declared
pub mod Goto
pub mod Labels
pub mod Listed
pub mod Encoding
pub mod Closed
use xenon_recomp.Emit.{
  Ref, gpr, fpr, vec, crf, ctr, xer, reserved, temp, v_temp, env, ea, Var, Stmt, comment, location,
}
use xenon_recomp.Emit.Insn.{JumpInst, inst_bctr, InstId, jump_group, Insn}
use xenon_recomp.Emit.Config.{SwitchTable, Hook, Config, Site}
use xenon_recomp.Emit.Translate.{Locals, unknown, EmitState, emit_line, recompile_insn}
use xenon_recomp.Base.{
  ℕ, zero, suc, ◌+◌, ◌-◌, ◌/◌, Bool, true, false, ◌&&◌, ◌||◌, ltb, ◌==◌, if◌then◌else◌, Option,
  none, some, List, [], ◌∷◌, ◌++◌, add64,
}
use xenon_recomp.Ppc.{byte_swap32, op, branch_bd, branch_bi, is_link, op_bc, op_b}
use xenon_recomp.Image.{Section, find_section}
use xenon_recomp.Symbols.{Symbol}
use xenon_recomp.Function.{Function}

-- What a function is recompiled from: the configuration, the sections and symbols of the image, the
-- word of its memory at an address as the host reads it, and the disassembler, which has no result
-- for an opcode that it does not know.
pub record Program : Type 0 where
  pub config : Config
  pub sections : List Section
  pub symbols : List Symbol
  pub word : ℕ → ℕ
  pub disassemble : ℕ → ℕ → Option Insn

-- The target of a branch without link, of the switch table and of the hook at an address.
unfoldable pub branch_labels : ℕ → ℕ → List ℕ
branch_labels a w =
    if is_link w
    then []
    else if op w == op_b
    then add64 a (branch_bi w) ∷ []
    else if op w == op_bc
    then add64 a (branch_bd w) ∷ []
    else []

unfoldable pub table_labels : Option SwitchTable → List ℕ
table_labels none = []
table_labels (some t) = t.labels

abbrev pub nonzero : ℕ → List ℕ
nonzero a = if a == 0 then [] else a ∷ []

unfoldable pub hook_labels : Option Hook → List ℕ
hook_labels none = []
hook_labels (some h) = nonzero h.jump_address ++ nonzero h.jump_on_true ++ nonzero h.jump_on_false

unfoldable pub labels_at : Program → ℕ → List ℕ
unfolding branch_labels table_labels hook_labels
labels_at p a =
    branch_labels a (byte_swap32 (p.word a))
    ++ table_labels (p.config.switch_tables a)
    ++ hook_labels (p.config.hooks a)

-- The first loop, over `n` instructions from an address on.
unfoldable pub collect_labels : Program → ℕ → ℕ → List ℕ
unfolding labels_at
collect_labels p a zero = []
collect_labels p a (suc n) = labels_at p a ++ collect_labels p (a + 4) n

-- `labels.find(..) != labels.end()`.
unfoldable pub is_label : List ℕ → ℕ → Bool
is_label [] a = false
is_label (l ∷ ls) a = l == a || is_label ls a

-- What the second loop changes: the text, the switch table's iterator and `allRecompiled`.
pub record FnState : Type 0 where
  pub emit : EmitState
  pub table : Option SwitchTable
  pub all_recompiled : Bool

-- `loc_..:`, behind which the CSR state is not known.
unfoldable pub emit_label : Config → List ℕ → ℕ → EmitState → EmitState
unfolding emit_line
emit_label c labels a e =
    if is_label labels a then record (emit_line c (location a) e) { csr = unknown } else e

-- The iterator before an instruction, and behind it: `BCTR` ends a table.
unfoldable pub table_before : Program → ℕ → Option SwitchTable → Option SwitchTable
table_before p a none = p.config.switch_tables a
table_before p a (some t) = some t

abbrev pub ends_table : JumpInst → Bool
ends_table inst_bctr = true
ends_table _ = false

unfoldable pub table_after : InstId → Option SwitchTable → Option SwitchTable
table_after (jump_group j) t = if ends_table j then none else t
table_after _ t = t

abbrev pub eieio : ℕ
eieio = 0xAC06007C

unfoldable pub site_of : Program → Function → ℕ → Option SwitchTable → Site
site_of p fn a t = record {
  config = p.config;
  symbols = p.symbols;
  fn_base = fn.base;
  fn_size = fn.size;
  address = a;
  table = t;
  mmio = p.word (a + 4) == eieio;
}

-- The body of the loop, by the disassembler's result.
unfoldable pub emit_insn :
    Program → Function → ℕ → Option SwitchTable → Option Insn → EmitState → Bool → FnState
unfolding recompile_insn site_of emit_line table_after
emit_insn p fn a t none e all = record {
  emit = emit_line p.config (comment (p.word a)) e;
  table = t;
  all_recompiled = all;
}
emit_insn p fn a t (some i) e all =
    let r = recompile_insn (site_of p fn a t) i e in
    record { emit = r.0; table = table_after i.id t; all_recompiled = r.1 && all }

unfoldable pub fn_step : Program → Function → List ℕ → ℕ → FnState → FnState
unfolding emit_insn emit_label table_before
fn_step p fn labels a s =
    emit_insn p fn a (table_before p a s.table) (p.disassemble a (p.word a))
      (emit_label p.config labels a s.emit) s.all_recompiled

-- The second loop, over `n` instructions from an address on.
unfoldable pub fn_loop : Program → Function → List ℕ → ℕ → ℕ → FnState → FnState
unfolding fn_step
fn_loop p fn labels a zero s = s
fn_loop p fn labels a (suc n) s = fn_loop p fn labels (a + 4) n (fn_step p fn labels a s)

-- The declarations of one array of names, from an index on.
unfoldable pub declare_range : (ℕ → Ref) → Locals → ℕ → ℕ → List Ref
declare_range f used k zero = []
declare_range f used k (suc n) =
    let rest = declare_range f used (suc k) n in if used (f k) then f k ∷ rest else rest

-- The declaration of one name.
unfoldable pub declare : Locals → Ref → List Ref
declare used n = if used n then n ∷ [] else []

unfoldable pub append_all : List (List Ref) → List Ref
append_all [] = []
append_all (ns ∷ nss) = ns ++ append_all nss

-- The groups of declarations in front of a body, in their order.
unfoldable pub declared_groups : Locals → List (List Ref)
declared_groups l =
    declare l ctr
    ∷ declare l xer
    ∷ declare l reserved
    ∷ declare_range crf l 0 8
    ∷ declare_range gpr l 0 32
    ∷ declare_range fpr l 0 32
    ∷ declare_range vec l 0 128
    ∷ declare l env
    ∷ declare l temp
    ∷ declare l v_temp
    ∷ declare l ea
    ∷ []

unfoldable pub declarations : Locals → List Ref
unfolding append_all declared_groups
declarations l = append_all (declared_groups l)

abbrev pub no_locals : Locals
no_locals n = false

abbrev pub fn_start : FnState
fn_start = record {
  emit = record { out = []; locals = no_locals; csr = unknown };
  table = none;
  all_recompiled = true;
}

-- The text of a function: the declarations, then the body.
pub record FnText : Type 0 where
  pub declared : List Ref
  pub body : List (Stmt Var)

-- The end of the function, cut at the end of its section, and the number of rounds of the loops.
unfoldable pub fn_end : Function → Section → ℕ
fn_end fn s =
    if ltb (s.base + s.size) (fn.base + fn.size) then s.base + s.size else fn.base + fn.size

unfoldable pub fn_count : Function → ℕ → ℕ
fn_count fn end = (end - fn.base + 3) / 4

-- The two loops of the function in its section.
unfoldable pub run_fn : Program → Function → Section → FnState
unfolding collect_labels fn_loop fn_end fn_count
run_fn p fn s =
    let n = fn_count fn (fn_end fn s) in
    fn_loop p fn (collect_labels p fn.base n) fn.base n fn_start

unfoldable pub fn_text : FnState → FnText
unfolding declarations
fn_text s = record { declared = declarations s.emit.locals; body = s.emit.out }

-- By the section that the function starts in: nothing is printed where there is none.
unfoldable pub recompile_in : Program → Function → Option Section → Option FnText × Bool
unfolding run_fn fn_text
recompile_in p fn none = (none, true)
recompile_in p fn (some s) = let r = run_fn p fn s in (some (fn_text r), r.all_recompiled)

-- `Recompiler::Recompile` of a function.
unfoldable pub recompile_fn : Program → Function → Option FnText × Bool
unfolding recompile_in
recompile_fn p fn =
    if fn.size == 0 then (none, true) else recompile_in p fn (find_section p.sections fn.base)
