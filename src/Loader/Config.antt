-- ===== src/Loader/Config.antt =====
-- `RecompilerConfig::Load` of `XenonRecomp/recompiler_config.cpp`. What toml++ finds for the keys is a
-- parameter. A value that the code takes without a test is none where it is missing, which is
-- undefined.
pub mod Start
use Prim.Native.String.{String}
use text.Mathlib.Text.{◌==◌ as str_eq}
use xenon_recomp.Base.{
  ℕ, Bool, true, false, not, ◌&&◌, ◌||◌, ◌==◌, if◌then◌else◌, Option, none, some, List, [], ◌∷◌,
  ◌++◌, ◌>>=◌,
}
use xenon_recomp.Crt.Scan.{CrtHelperAddresses}

-- What the table `main` has for each key.
pub record MainTable : Type 0 where
  pub file_path : Option String
  pub patch_file_path : Option String
  pub patched_file_path : Option String
  pub out_directory_path : Option String
  pub switch_table_file_path : Option String
  pub flag : String → Option Bool
  pub address : String → Option ℕ
  pub functions : Option (List (Option ℕ × Option ℕ))
  pub invalid_instructions : Option (List (Option ℕ × Option ℕ))

-- An entry of `switch` in the file of the switch tables, and one of `midasm_hook`.
pub record SwitchEntry : Type 0 where
  pub base : Option ℕ
  pub r : Option ℕ
  pub labels : Option (List (Option ℕ))

pub record HookEntry : Type 0 where
  pub address : Option ℕ
  pub name : Option String
  pub registers : Option (List (Option String))
  pub flag : String → Option Bool
  pub target : String → Option ℕ

-- `RecompilerSwitchTable` and `RecompilerMidAsmHook`.
pub record ConfigTable : Type 0 where
  pub r : ℕ
  pub labels : List ℕ

pub record ConfigHook : Type 0 where
  pub name : String
  pub registers : List String
  pub ret : Bool
  pub return_on_true : Bool
  pub return_on_false : Bool
  pub jump_address : ℕ
  pub jump_on_true : ℕ
  pub jump_on_false : ℕ
  pub after_instruction : Bool

-- `RecompilerConfig`, with its maps as lists of keys and values. All paths are below `directoryPath`,
-- which is left out.
pub record Settings : Type 0 where
  pub file_path : String
  pub patch_file_path : String
  pub patched_file_path : String
  pub out_directory_path : String
  pub skip_lr : Bool
  pub skip_msr : Bool
  pub ctr_as_local : Bool
  pub xer_as_local : Bool
  pub reserved_as_local : Bool
  pub cr_as_local : Bool
  pub non_argument_as_local : Bool
  pub non_volatile_as_local : Bool
  pub helpers : CrtHelperAddresses
  pub long_jmp_address : ℕ
  pub set_jmp_address : ℕ
  pub functions : List (ℕ × ℕ)
  pub invalid_instructions : List (ℕ × ℕ)
  pub switch_tables : List (ℕ × ConfigTable)
  pub hooks : List (ℕ × ConfigHook)

-- `value_or`.
abbrev pub value_or {ℓ} : {A : Type ℓ} → Option A → A → A
value_or none x = x
value_or (some y) x = y

-- `emplace`: nothing where the key is taken.
unfoldable pub has_key : {V : Type 0} → ℕ → List (ℕ × V) → Bool
has_key k [] = false
has_key k (e ∷ es) = e.0 == k || has_key k es

unfoldable pub emplace : {V : Type 0} → ℕ → V → List (ℕ × V) → List (ℕ × V)
unfolding has_key
emplace k v m = if has_key k m then m else m ++ ((k, v) ∷ [])

-- The loops over `functions` and `invalid_instructions`.
unfoldable pub load_pairs : List (Option ℕ × Option ℕ) → List (ℕ × ℕ) → Option (List (ℕ × ℕ))
unfolding emplace
load_pairs [] m = some m
load_pairs (e ∷ es) m = do key ← e.0; value ← e.1; load_pairs es (emplace key value m)

abbrev pub all_values {ℓ} : {A : Type ℓ} → List (Option A) → Option (List A)
all_values [] = some []
all_values (v ∷ vs) = do x ← v; xs ← all_values vs; some (x ∷ xs)

-- The loop over the switch tables.
unfoldable pub load_tables :
    List SwitchEntry → List (ℕ × ConfigTable) → Option (List (ℕ × ConfigTable))
unfolding emplace
load_tables [] m = some m
load_tables (e ∷ es) m = do
  r ← e.r
  entries ← e.labels
  labels ← all_values entries
  base ← e.base
  load_tables es (emplace base (record { r = r; labels = labels }) m)

-- The body of the loop over the hooks.
unfoldable pub load_hook : HookEntry → Option (ℕ × ConfigHook)
load_hook e = do
  name ← e.name
  registers ← all_values (value_or e.registers [])
  address ← e.address
  some (
    address,
    record {
      name = name;
      registers = registers;
      ret = value_or (e.flag "return") false;
      return_on_true = value_or (e.flag "return_on_true") false;
      return_on_false = value_or (e.flag "return_on_false") false;
      jump_address = value_or (e.target "jump_address") 0;
      jump_on_true = value_or (e.target "jump_address_on_true") 0;
      jump_on_false = value_or (e.target "jump_address_on_false") 0;
      after_instruction = value_or (e.flag "after_instruction") false;
    },
  )

unfoldable pub load_hooks : List HookEntry → List (ℕ × ConfigHook) → Option (List (ℕ × ConfigHook))
unfolding emplace load_hook
load_hooks [] m = some m
load_hooks (e ∷ es) m = do hook ← load_hook e; load_hooks es (emplace hook.0 hook.1 m)

-- The warnings about a hook: a return and a jump at once, and a direct and a conditional exit.
unfoldable pub returns_and_jumps : ConfigHook → Bool
returns_and_jumps h =
    h.ret && not (h.jump_address == 0)
    || h.return_on_true && not (h.jump_on_true == 0)
    || h.return_on_false && not (h.jump_on_false == 0)

unfoldable pub mixes_exits : ConfigHook → Bool
mixes_exits h =
    (h.ret || not (h.jump_address == 0))
    && (h.return_on_false
        || h.return_on_true
        || not (h.jump_on_false == 0)
        || not (h.jump_on_true == 0))

-- `RecompilerConfig::Load` of a file with a table `main`; the switch tables are those of the file that
-- it names, if there is one. A file without `main` gives what an empty one does.
unfoldable pub load_settings :
    MainTable → (String → Option (List SwitchEntry)) → List HookEntry → Option Settings
unfolding load_pairs load_tables load_hooks
load_settings t tables hook_entries =
    let flag = λ (k : String). value_or (t.flag k) false in
    let address = λ (k : String). value_or (t.address k) 0 in
    let switch_path = value_or t.switch_table_file_path "" in
    do
      functions ← load_pairs (value_or t.functions []) []
      invalid ← load_pairs (value_or t.invalid_instructions []) []
      switches ←
          load_tables (if str_eq switch_path "" then [] else value_or (tables switch_path) []) []
      hooks ← load_hooks hook_entries []
      some (record {
        file_path = value_or t.file_path "";
        patch_file_path = value_or t.patch_file_path "";
        patched_file_path = value_or t.patched_file_path "";
        out_directory_path = value_or t.out_directory_path "";
        skip_lr = flag "skip_lr";
        skip_msr = flag "skip_msr";
        ctr_as_local = flag "ctr_as_local";
        xer_as_local = flag "xer_as_local";
        reserved_as_local = flag "reserved_as_local";
        cr_as_local = flag "cr_as_local";
        non_argument_as_local = flag "non_argument_as_local";
        non_volatile_as_local = flag "non_volatile_as_local";
        helpers = record {
          rest_gpr14 = address "restgprlr_14_address";
          save_gpr14 = address "savegprlr_14_address";
          rest_fpr14 = address "restfpr_14_address";
          save_fpr14 = address "savefpr_14_address";
          rest_vmx14 = address "restvmx_14_address";
          save_vmx14 = address "savevmx_14_address";
          rest_vmx64 = address "restvmx_64_address";
          save_vmx64 = address "savevmx_64_address";
        };
        long_jmp_address = address "longjmp_address";
        set_jmp_address = address "setjmp_address";
        functions = functions;
        invalid_instructions = invalid;
        switch_tables = switches;
        hooks = hooks;
      })
