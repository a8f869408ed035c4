-- ===== src/Recompiler/Helpers.antt =====
-- `Recompiler::Analyse` of `XenonRecomp/recompiler.cpp`: the entries of the register save and
-- restore helpers, which the calls enter at the register they start with.
pub mod Parts
pub mod Exact
use Prim.Native.String.{String}
use mathlib.Core.List.Memᴰ
use xenon_recomp.Base.{
  ℕ, zero, suc, ◌+◌, ◌-◌, ◌*◌, ltb, leb, ◌==◌, if◌then◌else◌, List, [], ◌∷◌, ◌++◌,
}
use xenon_recomp.Function.{Function}
use xenon_recomp.Symbols.{symbol_function, insert_symbol}
use xenon_recomp.Crt.Scan.{CrtHelperAddresses}
use xenon_recomp.Recompiler.Sections.{Found}

-- A function at the base with its size, and its symbol.
abbrev pub entry : ℕ → ℕ → Function
entry base size = record { base = base; size = size; blocks = [] }

-- The entry for register `i` of a helper whose first register is `first` and whose registers end
-- below `last`: `stride` bytes of code for each register and `tail` bytes behind them; nothing for a
-- helper at 0. The address is computed in `size_t`.
unfoldable pub helper_entry : ℕ → ℕ → ℕ → ℕ → ℕ → ℕ → List Function
helper_entry address first last stride tail i =
    if address == 0
    then []
    else entry (address + (i - first) * stride) ((last - i) * stride + tail) ∷ []

-- `functions.emplace_back()` of a helper's entry and its symbol, which is named by the helper and the
-- register.
unfoldable pub add_helper : String → List Function → Found → Found
add_helper name [] f = f
add_helper name (fn ∷ fns) f = add_helper name fns (record {
  functions = f.functions ++ (fn ∷ []);
  symbols =
      insert_symbol
        (record { name = name; address = fn.base; size = fn.size; type = symbol_function })
        f.symbols;
})

-- `helper_name` formats the name of a helper, by its number in the order of the code, and a register.
module _ (helper_name : ℕ → ℕ → String) where
  -- The body of the loop over the registers, for the registers below 32 and in all, and the loop.
  unfoldable pub add_low_helpers : CrtHelperAddresses → ℕ → Found → Found
  add_low_helpers c i f =
      let f0 = add_helper (helper_name 0 i) (helper_entry c.rest_gpr14 14 32 4 12 i) f in
      let f1 = add_helper (helper_name 1 i) (helper_entry c.save_gpr14 14 32 4 8 i) f0 in
      let f2 = add_helper (helper_name 2 i) (helper_entry c.rest_fpr14 14 32 4 4 i) f1 in
      let f3 = add_helper (helper_name 3 i) (helper_entry c.save_fpr14 14 32 4 4 i) f2 in
      let f4 = add_helper (helper_name 4 i) (helper_entry c.rest_vmx14 14 32 8 4 i) f3 in
      add_helper (helper_name 5 i) (helper_entry c.save_vmx14 14 32 8 4 i) f4

  unfoldable pub add_helpers_at : CrtHelperAddresses → ℕ → Found → Found
  unfolding add_low_helpers
  add_helpers_at c i f =
      let low = add_low_helpers c i f in
      let g = if ltb i 32 then low else f in
      let g6 = add_helper (helper_name 6 i) (helper_entry c.rest_vmx64 64 128 8 4 i) g in
      let g7 = add_helper (helper_name 7 i) (helper_entry c.save_vmx64 64 128 8 4 i) g6 in
      if leb 64 i then g7 else g

  unfoldable pub add_helpers : CrtHelperAddresses → ℕ → ℕ → Found → Found
  unfolding add_helpers_at
  add_helpers c zero i f = f
  add_helpers c (suc left) i f = add_helpers c left (i + 1) (add_helpers_at c i f)
