-- ===== src/Emit/Plain.antt =====
-- The lines that only compute: they leave the sequence of lines and the flush mode alone, and most of
-- the translation prints no others.
pub mod Integers
pub mod Transfers
use xenon_recomp.Emit.{
  Ref, View, Stmt, set, set_flag, set_name, or_with, decrement, compare, compare_f64, store,
  clear_line, when, store_fpscr, comment,
}
use xenon_recomp.Emit.Insn.{Insn, compare_dot}
use xenon_recomp.Base.{◌≡◌, refl, Bool, true, false, ◌&&◌, if-elim, List, [], ◌∷◌, ◌++◌}

unfoldable pub is_plain : {N : Type 0} → Stmt N → Bool
is_plain (set n w a) = true
is_plain (set_flag n w a) = true
is_plain (set_name n a) = true
is_plain (or_with n w a) = true
is_plain (decrement n) = true
is_plain (compare n w a b x) = true
is_plain (compare_f64 n a b) = true
is_plain (store m w a b) = true
is_plain (clear_line a k) = true
is_plain (when c s) = is_plain s
is_plain (comment k) = true
is_plain (store_fpscr a) = true
is_plain _ = false

unfoldable pub all_plain : {N : Type 0} → List (Stmt N) → Bool
unfolding is_plain
all_plain [] = true
all_plain (s ∷ ss) = is_plain s && all_plain ss

pub and_split : (a b : Bool) → (a && b) ≡ true → (a ≡ true) × (b ≡ true)
and_split true b h = (refl, h)
and_split false b h = absurd cc

pub and_join : (a b : Bool) → a ≡ true → b ≡ true → (a && b) ≡ true
and_join true b h k = k
and_join false b h k = absurd cc

pub all_plain-append :
    {N : Type 0} (xs ys : List (Stmt N))
    → all_plain xs ≡ true
    → all_plain ys ≡ true
    → all_plain (xs ++ ys) ≡ true
unfolding all_plain
all_plain-append [] ys h k = k
all_plain-append (x ∷ xs) ys h k =
    let (hx, hxs) = and_split (is_plain x) (all_plain xs) h in
    and_join (is_plain x) (all_plain (xs ++ ys)) hx (all_plain-append xs ys hxs k)

pub compare_dot-IsPlain : (i : Insn) (w : View) → all_plain (compare_dot i w) ≡ true
unfolding all_plain is_plain compare_dot
compare_dot-IsPlain i w = if-elim (λ (ss : List (Stmt Ref)). all_plain ss ≡ true) i.dot refl refl
