-- ===== src/Tests/Analysing.antt =====
-- The theorems on `Recompiler::Analyse` at concrete inputs.
use Prim.Native.String.{String}
use xenon_recomp.Base.{
  ℕ, ◌%◌, ◌-◌, ◌↔◌, ◌≤◌, ◌≡◌, refl, ◌==◌, if◌then◌else◌, Option, none, some, [], ◌∷◌, All, arith,
}
use xenon_recomp.Function.{Function}
use xenon_recomp.Image.{Section, find_section}
use xenon_recomp.Crt.Scan.{CrtHelperAddresses, no_helpers}
use xenon_recomp.Recompiler.Analyse.{analyse, analyse-IsSorted, known_functions, IsSorted}
use xenon_recomp.Recompiler.Helpers.{helper_entry, add_helper, add_helpers_at, add_helpers}
use xenon_recomp.Recompiler.Helpers.Parts.{IsEntry}
use xenon_recomp.Recompiler.Helpers.Exact.{add_helpers-IsEntry}
use mathlib.Core.List.{Memᴰ}
use xenon_recomp.Recompiler.Entries.{
  InSection, configured_functions, pdata_functions, pdata_functions-InSection,
}
use xenon_recomp.Recompiler.Extend.{Extended, extend_function, extend_function-Extended}
use xenon_recomp.Recompiler.Sections.{Found, StartsInside, scan_code, scan_code-Ends}

abbrev helper_addresses : CrtHelperAddresses
helper_addresses = record {
  rest_gpr14 = 0x82001000;
  save_gpr14 = 0x82001080;
  rest_fpr14 = 0;
  save_fpr14 = 0;
  rest_vmx14 = 0x82001100;
  save_vmx14 = 0x82001200;
  rest_vmx64 = 0x82001300;
  save_vmx64 = 0x82001600;
}

add_helpers-IsEntry_example :
    Memᴰ
      (record { base = 0x82001004; size = 80; blocks = [] })
      (add_helpers
        (λ i j. "helper")
        helper_addresses
        (128 - 14)
        14
        (record { functions = []; symbols = [] })).functions
    ↔ IsEntry helper_addresses (record { base = 0x82001004; size = 80; blocks = [] })
add_helpers-IsEntry_example =
    add_helpers-IsEntry (λ i j. "helper") helper_addresses []
      (record { base = 0x82001004; size = 80; blocks = [] })

abbrev code_section : Section
code_section = record { name = ".text"; base = 0x1000; size = 64; flags = 2; data_at = 16 }

abbrev function_at : ℕ → ℕ → Function
function_at base size = record { base = base; size = size; blocks = [] }

-- A table in the function with a label in the small function behind it.
extend_function-Extended_example :
    Extended
      (code_section ∷ [])
      (record { table_base = 0x1004; labels = 0x1008 ∷ 0x1010 ∷ [] } ∷ [])
      (function_at 0x1000 16)
      (extend_function
        (code_section ∷ [])
        (record { table_base = 0x1004; labels = 0x1008 ∷ 0x1010 ∷ [] } ∷ [])
        (function_at 0x1000 16)
        (function_at 0x1010 8 ∷ []))
extend_function-Extended_example =
    extend_function-Extended (code_section ∷ [])
      (record { table_base = 0x1004; labels = 0x1008 ∷ 0x1010 ∷ [] } ∷ []) (function_at 0x1000 16)
      (function_at 0x1010 8 ∷ []) (omega arith)

-- A call of the next word, an invalid instruction, and functions of size 0 and 8.
abbrev section_words : ℕ → ℕ
section_words pos = if pos == 0 then 0x48000009 else pos

abbrev skip_sixteen : ℕ → Option ℕ
skip_sixteen w = if w == 16 then some 4 else none

abbrev analyze_small : ℕ → ℕ → Function
analyze_small base size = function_at base (base % 16)

abbrev no_name : ℕ → String
no_name base = "sub"

abbrev nothing_found : Found
nothing_found = record { functions = []; symbols = [] }

scan_code-Ends_example :
    (f' : Found) × (scan_code section_words skip_sixteen analyze_small no_name 65 code_section
        nothing_found
      ≡ some f')
    × All
        (λ fn. StartsInside section_words skip_sixteen analyze_small no_name 0x1000 64 fn)
        f'.functions
scan_code-Ends_example =
    scan_code-Ends section_words skip_sixteen analyze_small no_name (λ base size. refl)
      (λ fn. StartsInside section_words skip_sixteen analyze_small no_name 0x1000 64 fn)
      code_section 65 nothing_found (omega arith) (omega arith) (λ fn h. h) tt

abbrev pdata_section : Section
pdata_section = record { name = ".pdata"; base = 0x2000; size = 16; flags = 0; data_at = 0 }

-- One entry at 0x1020 for 16 words, which sticks out of the code section, and one of zeros.
abbrev pdata_bytes : ℕ → ℕ
pdata_bytes i = if i == 2 then 0x10 else if i == 3 then 0x20 else if i == 6 then 16 else 0

pdata_functions-InSection_example :
    All
      (InSection no_name pdata_bytes (code_section ∷ pdata_section ∷ []))
      (pdata_functions no_name pdata_bytes (code_section ∷ pdata_section ∷ []) (
        configured_functions no_name pdata_bytes
          (code_section ∷ pdata_section ∷ [])
          ((0x1000, 16) ∷ (0x1010, 0) ∷ (0x9000, 8) ∷ [])
          nothing_found)).functions
pdata_functions-InSection_example =
    pdata_functions-InSection no_name pdata_bytes (code_section ∷ pdata_section ∷ [])
      ((0x1000, 16) ∷ (0x1010, 0) ∷ (0x9000, 8) ∷ []) nothing_found tt

-- The code of the section is a call of the next word, and words of zeros.
abbrev call_bytes : ℕ → ℕ
call_bytes i = if i == 16 then 0x48 else if i == 19 then 9 else 0

analyse-IsSorted_example :
    (f : Found) × (analyse
        (λ i j. "helper")
        no_name
        call_bytes
        skip_sixteen
        analyze_small
        (code_section ∷ [])
        no_helpers
        ((0x1010, 16) ∷ [])
        (record { table_base = 0x1004; labels = 0x1008 ∷ 0x1010 ∷ [] } ∷ [])
        []
      ≡ some f)
    × IsSorted 0 f.functions
    × All (λ fn. 0x1000 ≤ fn.base) f.functions
unfolding known_functions pdata_functions configured_functions add_helpers helper_entry find_section
    add_helpers_at add_helper
analyse-IsSorted_example =
    analyse-IsSorted (λ i j. "helper") no_name call_bytes skip_sixteen analyze_small
      (λ base size. refl) (λ a. 0x1000 ≤ a) (code_section ∷ []) no_helpers ((0x1010, 16) ∷ [])
      (record { table_base = 0x1004; labels = 0x1008 ∷ 0x1010 ∷ [] } ∷ []) []
      ((λ e. (omega arith, λ a lo hi. lo)), tt) (omega arith, tt)
