-- ===== src/Function/Invariant.antt =====
-- The invariant of the loop of `Function::Analyze` and the measure that falls in each round.
use xenon_recomp.Base.{
  ℕ, zero, suc, ◌+◌, ◌-◌, ◌*◌, ◌/◌, ◌%◌, ◌^◌, ◌≤◌, ◌<◌, ◌≡◌, refl, inl, inr, Option, none, some,
  List, [], ◌∷◌, ◌++◌, length, get_elem?, set, All, All-append, All-set, All-get_elem?,
  length-append, length-set, get_elem?-some, get_elem?_lt, get_elem?-append_left,
  get_elem?-append_last, get_elem?-set_self, get_elem?-set_ne, Option-cases, arith,
}
use xenon_recomp.Function.{Block, Walk, restore_data, open_block, open_new, search_block}

-- How much of the region is left for the walk of one block, in words and one more.
abbrev pub rem_of : ℕ → Option Block → ℕ
rem_of size none = 0
rem_of size (some b) = size + 9 - (b.base + b.size)

-- The same for all blocks on the stack; each counts at least one for the round that closes it.
abbrev pub sum_rem : ℕ → List Block → List ℕ → ℕ
sum_rem size blocks [] = 0
sum_rem size blocks (i ∷ s) = suc (rem_of size (get_elem? blocks i)) + sum_rem size blocks s

-- Starts and sizes are whole words, and a block starts at most one branch past the region.
pub record IsOk (size : ℕ) (b : Block) : Type 0 where
  pub aligned_base : b.base % 4 ≡ 0
  pub aligned_size : b.size % 4 ≡ 0
  pub bounded : b.base + b.size ≤ size + 2 ^ 25 + 4

abbrev pub IsLive : List Block → List ℕ → Type 0
IsLive blocks stack = All (λ i. i < length blocks) stack

-- The first block is that of the entry.
abbrev pub HasEntry : List Block → Type 0
HasEntry [] = ⊥
HasEntry (b ∷ bs) = b.base ≡ 0

HasEntry-append : (xs ys : List Block) → HasEntry xs → HasEntry (xs ++ ys)
HasEntry-append [] ys h = absurd h
HasEntry-append (x ∷ xs) ys h = h

HasEntry-set :
    (xs : List Block) (i : ℕ) (b c : Block)
    → get_elem? xs i ≡ some b
    → c.base ≡ b.base
    → HasEntry xs
    → HasEntry (set xs i c)
HasEntry-set [] i b c e same h = h
HasEntry-set (x ∷ xs) zero b c e same h = ground arith
HasEntry-set (x ∷ xs) (suc i) b c e same h = h

pub record IsGood (size : ℕ) (blocks : List Block) (stack : List ℕ) : Type 0 where
  pub all_ok : All (IsOk size) blocks
  pub live : IsLive blocks stack
  pub entry : HasEntry blocks

-- The position is the end of the top block: the sanity check of the loop.
abbrev pub IsAt : Walk → Type 0
IsAt w = At w.blocks w.stack w.pos
  where
    At : List Block → List ℕ → ℕ → Type 0
    At blocks [] pos = Unit
    At blocks (i ∷ s) pos =
        (b : Block) × (get_elem? blocks i ≡ some b) × (pos * 4 ≡ b.base + b.size)

IsLive-mono : (xs ys : List Block) (s : List ℕ) → length xs ≤ length ys → IsLive xs s → IsLive ys s
IsLive-mono xs ys [] h l = tt
IsLive-mono xs ys (i ∷ s) h l = (omega arith, IsLive-mono xs ys s h l.1)

pub sum_rem-append :
    (size : ℕ) (xs ys : List Block) (s : List ℕ)
    → IsLive xs s
    → sum_rem size (xs ++ ys) s ≡ sum_rem size xs s
sum_rem-append size xs ys [] l = refl
sum_rem-append size xs ys (i ∷ s) l =
    rw (get_elem?-append_left xs ys i l.0, sum_rem-append size xs ys s l.1)

-- Writing an entry that has no more left lowers the sum.
pub sum_rem-set :
    (size : ℕ) (xs : List Block) (i : ℕ) (b c : Block) (s : List ℕ)
    → get_elem? xs i ≡ some b
    → b.base + b.size ≤ c.base + c.size
    → sum_rem size (set xs i c) s ≤ sum_rem size xs s
sum_rem-set size xs i b c [] e h = omega arith
sum_rem-set size xs i b c (j ∷ s) e h = ground (
  arith,
  sum_rem-set size xs i b c s e h,
  get_elem?-set_self xs i c,
  get_elem?_lt xs i b e,
  get_elem?-set_ne xs i j c,
)

pub IsGood-set :
    (size : ℕ) (xs : List Block) (i : ℕ) (b c : Block) (s : List ℕ)
    → get_elem? xs i ≡ some b
    → c.base ≡ b.base
    → IsGood size xs s
    → IsOk size c
    → IsGood size (set xs i c) s
IsGood-set size xs i b c s found same g o = record {
  all_ok = All-set (IsOk size) xs i c g.all_ok o;
  live = IsLive-mono xs (set xs i c) s (omega (arith, length-set xs i c)) g.live;
  entry = HasEntry-set xs i b c found same g.entry;
}

-- Opening blocks: the invariant is kept, at most `n` blocks are added, and each added block is paid
-- for by `size + 11`.
pub record Opens (n size : ℕ) (blocks : List Block) (stack : List ℕ) (r : List Block × List ℕ)
    : Type 0 where
  pub good : IsGood size r.0 r.1
  pub grows : length blocks ≤ length r.0
  pub most : length r.0 ≤ length blocks + n
  pub paid :
      sum_rem size r.0 r.1 + length blocks * (size + 11)
      ≤ sum_rem size blocks stack + length r.0 * (size + 11)

pub open_block-Opens :
    (size : ℕ) (blocks : List Block) (stack : List ℕ) (b : Block)
    → IsGood size blocks stack
    → IsOk size b
    → Opens 1 size blocks stack (open_block blocks stack b)
unfolding open_block
open_block-Opens size blocks stack b g o = record {
  good = record {
    all_ok = All-append (IsOk size) blocks (b ∷ []) g.all_ok (o, tt);
    live = (
      omega (arith, longer),
      IsLive-mono blocks (blocks ++ b ∷ []) stack (omega (arith, longer)) g.live,
    );
    entry = HasEntry-append blocks (b ∷ []) g.entry;
  };
  grows = omega (arith, longer);
  most = omega (arith, longer);
  paid =
      rw (get_elem?-append_last blocks b, sum_rem-append size blocks (b ∷ []) stack g.live, longer)
        (omega arith);
}
  where
    longer : length (blocks ++ b ∷ []) ≡ length blocks + 1
    longer = omega (arith, length-append blocks (b ∷ []))

pub Opens-none :
    (size : ℕ) (blocks : List Block) (stack : List ℕ)
    → IsGood size blocks stack
    → Opens 1 size blocks stack (blocks, stack)
Opens-none size blocks stack g = record {
  good = g;
  grows = omega arith;
  most = omega arith;
  paid = omega arith;
}

pub open_new-Opens :
    (base size : ℕ) (blocks : List Block) (stack : List ℕ) (b : Block)
    → IsGood size blocks stack
    → IsOk size b
    → Opens 1 size blocks stack (open_new base blocks stack b)
unfolding open_new
open_new-Opens base size blocks stack b g o =
    elim (Option-cases (search_block base blocks ((base + b.base) % 2 ^ 64))) [
      | inl new ↦ rw (new, open_new) (open_block-Opens size blocks stack b g o)
      | inr (i, old) ↦ rw (old, open_new) (Opens-none size blocks stack g)
    ]

pub Opens-weaken :
    {size : ℕ} {blocks : List Block} {stack : List ℕ} {r : List Block × List ℕ}
    → Opens 1 size blocks stack r
    → Opens 2 size blocks stack r
Opens-weaken a = record {
  good = a.good;
  grows = a.grows;
  most = omega (arith, a.most);
  paid = a.paid;
}

pub Opens-trans :
    (m n size : ℕ) (blocks : List Block) (stack : List ℕ) (r t : List Block × List ℕ)
    → Opens m size blocks stack r
    → Opens n size r.0 r.1 t
    → Opens (m + n) size blocks stack t
Opens-trans m n size blocks stack r t a b = record {
  good = b.good;
  grows = omega (arith, a.grows, b.grows);
  most = omega (arith, a.most, b.most);
  paid = omega (arith, a.paid, b.paid);
}

-- A walk that goes on from the given blocks and stack.
pub record Goes (size : ℕ) (blocks : List Block) (stack : List ℕ) (r : Option Walk) : Type 0 where
  pub out : Walk
  pub returns : r ≡ some out
  pub good : IsGood size out.blocks out.stack
  pub at : IsAt out
  pub same_blocks : out.blocks ≡ blocks
  pub same_stack : out.stack ≡ stack

pub restore_data-Goes :
    (size : ℕ) (blocks : List Block) (stack : List ℕ) (pos : ℕ)
    → size + 2 ^ 25 + 4 < 2 ^ 64
    → IsGood size blocks stack
    → Goes size blocks stack (restore_data blocks stack pos)
unfolding restore_data
restore_data-Goes size blocks [] pos h g = record {
  out = record { blocks = blocks; stack = []; pos = pos + 1 };
  returns = refl;
  good = g;
  at = tt;
  same_blocks = refl;
  same_stack = refl;
}
restore_data-Goes size blocks (i ∷ s) pos h g =
    let (b, e) = get_elem?-some blocks i g.live.0 in
    let o = All-get_elem? (IsOk size) blocks i g.all_ok e in
    record {
      out = record { blocks = blocks; stack = i ∷ s; pos = ((b.base + b.size) % 2 ^ 64) / 4 };
      returns = rw (e, restore_data);
      good = g;
      at = (b, e, omega (arith, o.aligned_base, o.aligned_size, o.bounded));
      same_blocks = refl;
      same_stack = refl;
    }
