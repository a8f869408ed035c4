-- ===== src/Symbols.antt =====
-- `XenonUtils/symbol.h` and `XenonUtils/symbol_table.h`: the multiset of symbols as a list in the
-- comparer's order.
pub mod Lookup
use Prim.Native.String.{String}
use xenon_recomp.Base.{
  ℕ, ◌||◌, ltb, leb, if◌then◌else◌, Option, none, some, List, [], ◌∷◌, add64, sub64,
}

pub data SymbolType : Type 0 where
  symbol_none symbol_section symbol_function symbol_comment : SymbolType

pub record Symbol : Type 0 where
  pub name : String
  pub address : ℕ
  pub size : ℕ
  pub type : SymbolType

-- `insert` and `emplace`: behind the symbols that are not above the new one.
unfoldable pub insert_symbol : Symbol → List Symbol → List Symbol
insert_symbol s [] = s ∷ []
insert_symbol s (t ∷ ts) = if ltb s.address t.address then s ∷ t ∷ ts else t ∷ insert_symbol s ts

-- `equal_range(address)`: the symbols that the comparer finds neither below nor above.
unfoldable pub take_equal : ℕ → List Symbol → List Symbol
take_equal address [] = []
take_equal address (t ∷ ts) = if ltb address t.address then [] else t ∷ take_equal address ts

unfoldable pub equal_range : ℕ → List Symbol → List Symbol
unfolding take_equal
equal_range address [] = []
equal_range address (t ∷ ts) =
    if ltb t.address address then equal_range address ts else take_equal address (t ∷ ts)

-- The loop of `find`, with the closest distance and the match so far.
unfoldable pub find_loop : ℕ → ℕ → Option Symbol → List Symbol → Option Symbol
find_loop address closest match [] = match
find_loop address closest match (t ∷ ts) =
    let distance = sub64 address t.address in
    let keep = find_loop address closest match ts in
    let take = find_loop address distance (some t) ts in
    if ltb address t.address || leb (add64 t.address t.size) address
    then keep
    else if leb distance closest
    then take
    else keep

unfoldable pub find_in_range : ℕ → List Symbol → Option Symbol
unfolding find_loop
find_in_range address [] = none
find_in_range address (t ∷ ts) = find_loop address (sub64 address t.address) none (t ∷ ts)

-- `SymbolTable::find`; `none` is `end()`.
unfoldable pub find_symbol : ℕ → List Symbol → Option Symbol
unfolding find_in_range equal_range
find_symbol address symbols = find_in_range address (equal_range address symbols)
