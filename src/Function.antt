-- ===== src/Function.antt =====
-- `XenonAnalyse/function.h` and `XenonAnalyse/function.cpp`: the control-flow walk that finds the
-- extent of a function. The children prove its properties. The code is a parameter: `code k` is
-- the k-th 32-bit word after the start as it lies in memory, and `decodes raw addr` says whether
-- the disassembler, which is third-party code, knows the word. `assert`s are compiled out.
pub mod Search
pub mod Cover
pub mod Total
pub mod Branches
pub mod Rounds
pub mod Invariant
use xenon_recomp.Base.{
  ℕ, zero, suc, ◌+◌, ◌*◌, ◌/◌, ◌%◌, ◌^◌, max, Bool, not, ◌&&◌, ◌||◌, ltb, leb, ◌==◌, if◌then◌else◌,
  Option, none, some, List, [], ◌∷◌, ◌++◌, length, get_elem?, set, add64, sub64, size_max,
}
use xenon_recomp.Ppc.{
  byte_swap32, op, xop, branch_bd, branch_bi, is_link, branch_bo, op_bc, op_b, op_ctr,
}

pub record Block : Type 0 where
  pub base : ℕ
  pub size : ℕ
  pub projected_size : ℕ

-- `Block(base, size)`, whose projected size is -1.
abbrev pub block : ℕ → ℕ → Block
block base size = record { base = base; size = size; projected_size = size_max }

pub record Function : Type 0 where
  pub base : ℕ
  pub size : ℕ
  pub blocks : List Block

-- Whether one round of the loop of `SearchBlock` returns.
unfoldable pub block_hit : ℕ → ℕ → Block → Bool
block_hit base address b =
    let begin = add64 base b.base in
    let end = add64 begin b.size in
    if not (begin == end) then leb begin address && ltb address end else address == begin

-- The loop of `SearchBlock` from index `i` on; `none` is its -1.
unfoldable pub search_from : ℕ → ℕ → ℕ → List Block → Option ℕ
search_from base address i [] = none
search_from base address i (b ∷ bs) =
    let rest = search_from base address (i + 1) bs in
    if block_hit base address b then some i else rest

unfoldable pub search_block : ℕ → List Block → ℕ → Option ℕ
unfolding search_from
search_block base blocks address =
    if ltb address base then none else search_from base address 0 blocks

-- What the loop of `Analyze` changes: the blocks, the stack of the indices of those still open,
-- with its top first, and the position as the index of a word.
pub record Walk : Type 0 where
  pub blocks : List Block
  pub stack : List ℕ
  pub pos : ℕ

-- `RESTORE_DATA()` and the `++data` after it: the position goes to the end of the top block.
unfoldable pub restore_data : List Block → List ℕ → ℕ → Option Walk
restore_data blocks [] pos = some (record { blocks = blocks; stack = []; pos = pos + 1 })
restore_data blocks (i ∷ s) pos = elim (get_elem? blocks i) [
  | none ↦ none
  | some b ↦ some (record { blocks = blocks; stack = i ∷ s; pos = add64 b.base b.size / 4 })
]

-- The blocks and the stack after `blocks.emplace_back(..)` and `blockStack.emplace_back(..)`.
unfoldable pub open_block : List Block → List ℕ → Block → List Block × List ℕ
open_block blocks stack b = (blocks ++ (b ∷ []), length blocks ∷ stack)

-- A block is opened only if no block holds its start.
unfoldable pub open_new : ℕ → List Block → List ℕ → Block → List Block × List ℕ
open_new base blocks stack b = elim (search_block base blocks (add64 base b.base)) [
  | none ↦ open_block blocks stack b
  | some _ ↦ (blocks, stack)
]

module _ (code : ℕ → ℕ) (decodes : ℕ → ℕ → Bool) (base size : ℕ) where
  -- The false and the true path of a conditional branch at `addr`; `s` is the rest of the stack.
  unfoldable pub fork_paths : ℕ → ℕ → List Block → List ℕ → ℕ → Option Walk
  fork_paths addr insn blocks s pos =
      let dest = add64 addr (branch_bd insn) in
      let in_bounds = leb base dest && ltb dest (add64 base size) in
      let l_base = add64 (sub64 addr base) 4 in
      let r_base = sub64 dest base in
      let projection = if in_bounds then sub64 r_base l_base else size_max in
      let left =
        open_new base blocks s (record { base = l_base; size = 0; projected_size = projection }) in
      let both = if in_bounds then open_new base left.0 left.1 (block r_base 0) else left in
      restore_data both.0 both.1 pos

  -- A conditional branch that is no call, in the block `i`, which is `cur` with the branch counted.
  unfoldable pub conditional_branch : ℕ → ℕ → ℕ → Block → List Block → List ℕ → ℕ → Option Walk
  conditional_branch addr insn i cur blocks s pos =
      fork_paths addr insn (set blocks i (record cur { projected_size = size_max })) s pos

  -- An unconditional branch that is no call.
  unfoldable pub immediate_branch : ℕ → ℕ → Block → List Block → List ℕ → ℕ → Option Walk
  immediate_branch addr insn cur blocks s pos =
      let dest = add64 addr (branch_bi insn) in
      let branch_base = sub64 dest base in
      let continuous = branch_base == add64 cur.base cur.size in
      let projection =
        if not (cur.projected_size == size_max) && continuous
        then sub64 cur.projected_size cur.size
        else size_max in
      let (opened, s') =
        open_block blocks s
          (record { base = branch_base; size = 0; projected_size = projection }) in
      if ltb dest base then restore_data blocks s pos else elim (search_block base blocks dest) [
        | none ↦ restore_data opened s' pos
        | some _ ↦ restore_data blocks s pos
      ]

  -- `blr`, `bctr` and their conditional forms: the fifth bit of BO tells whether a case falls
  -- through.
  unfoldable pub return_branch : ℕ → ℕ → List Block → List ℕ → ℕ → Option Walk
  return_branch addr insn blocks s pos =
      let conditional = branch_bo insn / 16 % 2 == 0 in
      let (opened, s') = open_new base blocks s (block (add64 (sub64 addr base) 4) 0) in
      if conditional then restore_data opened s' pos else restore_data blocks s pos

  -- The branches of the loop's body behind the projection test, for the block `i`, which is `b`.
  unfoldable pub scan_word : ℕ → Block → List Block → List ℕ → ℕ → Option Walk
  scan_word i b blocks s pos =
      let addr = add64 base (pos * 4) in
      let insn = byte_swap32 (code pos) in
      let cur = record b { size = add64 b.size 4 } in
      let grown = set blocks i cur in
      let go_on = some (record { blocks = grown; stack = i ∷ s; pos = pos + 1 }) in
      let leaves =
        op insn == op_b || insn == 0 || op insn == op_ctr && (xop insn == 16 || xop insn == 528) in
      if op insn == op_bc
      then if is_link insn then go_on else conditional_branch addr insn i cur grown s pos
      else if leaves
      then if is_link insn
        then go_on
        else if op insn == op_b
        then immediate_branch addr insn cur grown s pos
        else if op insn == op_ctr
        then return_branch addr insn grown s pos
        else restore_data grown s pos
      else if decodes (code pos) addr
      then go_on
      else restore_data grown s pos

  -- One round of the loop with the block `i` on top of the stack. `none` would be a read past the
  -- block vector.
  unfoldable pub round : ℕ → List ℕ → List Block → ℕ → Option Walk
  round i s blocks pos = elim (get_elem? blocks i) [
    | none ↦ none
    | some b ↦
        if not (b.projected_size == size_max) && leb b.projected_size b.size
        then restore_data blocks s pos
        else scan_word i b blocks s pos
  ]

-- How the loop of `Analyze` can end in the model.
pub data Outcome {ℓ} (A : Type ℓ) : Type ℓ where
  done : A → Outcome A
  fault out_of_fuel : Outcome A

abbrev pub max_block_count : ℕ
max_block_count = 2 ^ 20

module _ (code : ℕ → ℕ) (decodes : ℕ → ℕ → Bool) (base size : ℕ) where
  -- The loop: it runs while the position is not past the end, a block is open and the block
  -- limit is not exceeded. `limit` is `c_maxBlockCount`.
  unfoldable pub analyze_loop : ℕ → ℕ → Walk → Outcome (List Block)
  analyze_loop limit zero w = out_of_fuel
  analyze_loop limit (suc fuel) w =
      if ltb size (w.pos * 4) || ltb limit (length w.blocks) then done w.blocks else elim w.stack [
        | [] ↦ done w.blocks
        | i ∷ s ↦ elim (round code decodes base size i s w.blocks w.pos) [
          | none ↦ fault
          | some w' ↦ analyze_loop limit fuel w'
        ]
      ]

-- `std::sort` by base, as an insertion sort.
unfoldable pub insert_block : Block → List Block → List Block
insert_block b [] = b ∷ []
insert_block b (c ∷ cs) = if leb b.base c.base then b ∷ c ∷ cs else c ∷ insert_block b cs

unfoldable pub sort_blocks : List Block → List Block
unfolding insert_block
sort_blocks [] = []
sort_blocks (b ∷ bs) = insert_block b (sort_blocks bs)

-- The blocks before the first gap: the search for `discontinuity` and the `erase` after it.
unfoldable pub cut_gap : Block → List Block → List Block
cut_gap b [] = b ∷ []
cut_gap b (c ∷ cs) =
    let rest = b ∷ cut_gap c cs in if leb c.base (add64 b.base b.size) then rest else b ∷ []

unfoldable pub contiguous : List Block → List Block
unfolding cut_gap
contiguous [] = []
contiguous (b ∷ bs) = cut_gap b bs

-- The end of the block furthest away.
unfoldable pub furthest : List Block → ℕ
furthest [] = 0
furthest (b ∷ bs) = max (add64 b.base b.size) (furthest bs)

-- What follows the loop: sort, cut, and clamp the size to the region.
unfoldable pub finish : ℕ → ℕ → List Block → Function
finish base size blocks =
    let kept = if ltb 1 (length blocks) then contiguous (sort_blocks blocks) else blocks in
    let max_size = add64 size 3 / 4 * 4 in
    let far = furthest kept in
    record { base = base; size = if ltb max_size far then max_size else far; blocks = kept }

abbrev pub start : Walk
start = record { blocks = block 0 0 ∷ []; stack = 0 ∷ []; pos = 0 }

-- `Function::Analyze`. The word 0x04000048 is a shifted-pointer tail call as it lies in memory.
unfoldable pub analyze : (ℕ → ℕ) → (ℕ → ℕ → Bool) → ℕ → ℕ → ℕ → Outcome Function
analyze code decodes fuel size base =
    if code 1 == 0x04000048
    then done (record { base = base; size = 8; blocks = [] })
    else elim (analyze_loop code decodes base size max_block_count fuel start) [
      | done blocks ↦ done (finish base size blocks)
      | fault ↦ fault
      | out_of_fuel ↦ out_of_fuel
    ]
