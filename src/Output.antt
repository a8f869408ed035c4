-- ===== src/Output.antt =====
-- `Recompiler::Recompile` of an executable and `SaveCurrentOutData`, in
-- `XenonRecomp/recompiler.cpp`: the texts of the headers, the function mapping and the functions, and
-- the files that they are written to. Progress messages and directories are left out.
pub mod Files
pub mod Functions
use Prim.Native.String.{String}
use xenon_recomp.Base.{
  ℕ, suc, ◌+◌, ◌%◌, Bool, true, false, not, ltb, ◌==◌, if◌then◌else◌, Option, none, some, List, [],
  ◌∷◌, ◌++◌, ◌>>=◌, size_max, add64, sub64,
}
use xenon_recomp.Image.{Section}
use xenon_recomp.Symbols.{Symbol}
use xenon_recomp.Function.{Function}
use xenon_recomp.Crt.Scan.{is_code}
use xenon_recomp.Emit.Config.{Config}
use xenon_recomp.Emit.Fn.{Program, FnText, recompile_fn}

-- The macros that `ppc_config.h` defines by the configuration.
pub data ConfigMacro : Type 0 where
  skip_lr ctr_as_local xer_as_local reserved_as_local skip_msr cr_as_local : ConfigMacro
  non_argument_as_local non_volatile_as_local : ConfigMacro

-- The pieces of text that are printed, each with at least one character: `raw` is text that the
-- program did not print, such as the context header or what a file held before.
pub data Piece : Type 0 where
  pragma_once guard_open blank detail_include guard_close : Piece
  define : ConfigMacro → Piece
  image_base image_size code_base code_size : ℕ → Piece
  include_config include_context include_shared : Piece
  raw : ℕ → Piece
  extern_func : String → Piece
  mapping_open mapping_end mapping_close : Piece
  mapping : ℕ → String → Piece
  function : FnText → Piece

abbrev pub Text : Type 0
Text = List Piece

-- The names of the output files; the last is `ppc_recomp.{}.cpp`.
pub data FileName : Type 0 where
  config_h context_h shared_h func_mapping : FileName
  numbered : ℕ → FileName

unfoldable pub same_name : FileName → FileName → Bool
same_name config_h config_h = true
same_name context_h context_h = true
same_name shared_h shared_h = true
same_name func_mapping func_mapping = true
same_name (numbered a) (numbered b) = a == b
same_name _ _ = false

-- The file system and XXH3: whether a file opens for writing, and whether two texts have the same
-- size and the same hash.
pub record Disk : Type 0 where
  pub opens : FileName → Bool
  pub same : Text → Text → Bool

-- `out`, `cppFileIndex` and what the files hold; none is a file that does not open for reading.
pub record Session : Type 0 where
  pub out : Text
  pub file_index : ℕ
  pub files : FileName → Option Text

abbrev pub println : Piece → Session → Session
println t s = record s { out = s.out ++ (t ∷ []) }

unfoldable pub print_all : Text → Session → Session
print_all ts s = record s { out = s.out ++ ts }

unfoldable pub write_file : FileName → Text → (FileName → Option Text) → FileName → Option Text
unfolding same_name
write_file name text files n = if same_name name n then some text else files n

-- `shouldWrite`, by what the file holds.
unfoldable pub should_write : Disk → Text → Option Text → Bool
should_write d out none = true
should_write d out (some old) = not (d.same old out)

-- The write of a text that is not empty; none is the exit with an error.
unfoldable pub save_as : Disk → FileName → ℕ → Session → Option Session
save_as d name next s =
    if should_write d s.out (s.files name)
    then if d.opens name
      then some (record { out = []; file_index = next; files = write_file name s.out s.files })
      else none
    else some (record { out = []; file_index = next; files = s.files })

-- `SaveCurrentOutData` by a name, or with none by the next number.
unfoldable pub save_by_name : Disk → Option FileName → Session → Option Session
save_by_name d none s = save_as d (numbered s.file_index) (s.file_index + 1) s
save_by_name d (some name) s = save_as d name s.file_index s

abbrev pub is_empty : Text → Bool
is_empty [] = true
is_empty (t ∷ ts) = false

unfoldable pub save_current_out_data : Disk → Option FileName → Session → Option Session
save_current_out_data d name s = if is_empty s.out then some s else save_by_name d name s

-- `codeMin` and `codeMax`, as sizes of 64 bits.
unfoldable pub code_range : List Section → ℕ × ℕ → ℕ × ℕ
code_range [] r = r
code_range (s ∷ ss) r =
    let end = add64 s.base s.size in
    code_range ss (
      if is_code s
      then (if ltb s.base r.0 then s.base else r.0, if ltb r.1 end then end else r.1)
      else r)

abbrev pub define_if : Bool → ConfigMacro → Text
define_if b m = if b then define m ∷ [] else []

-- `ppc_config.h`, by the range of the code.
unfoldable pub config_text : Config → ℕ → ℕ → ℕ × ℕ → Text
config_text c base size range =
    pragma_once ∷ guard_open ∷ define_if c.skip_lr skip_lr
    ++ define_if c.ctr_as_local ctr_as_local
    ++ define_if c.xer_as_local xer_as_local
    ++ define_if c.reserved_as_local reserved_as_local
    ++ define_if c.skip_msr skip_msr
    ++ define_if c.cr_as_local cr_as_local
    ++ define_if c.non_argument_as_local non_argument_as_local
    ++ define_if c.non_volatile_as_local non_volatile_as_local
    ++ (blank
        ∷ image_base base
        ∷ image_size size
        ∷ code_base range.0
        ∷ code_size (sub64 range.1 range.0)
        ∷ blank
        ∷ detail_include
        ∷ guard_close
        ∷ [])

-- `ppc_recomp_shared.h` and `ppc_func_mapping.cpp`.
unfoldable pub extern_texts : List Symbol → Text
extern_texts [] = []
extern_texts (s ∷ ss) = extern_func s.name ∷ extern_texts ss

unfoldable pub mapping_texts : List Symbol → Text
mapping_texts [] = []
mapping_texts (s ∷ ss) = mapping s.address s.name ∷ mapping_texts ss

-- What `Recompile` of a function appends.
unfoldable pub fn_pieces : Option FnText → Text
fn_pieces none = []
fn_pieces (some t) = function t ∷ []

module _ (d : Disk) (p : Program) where
  -- The start of a file in front of every 256th function.
  unfoldable pub start_file : ℕ → Session → Option Session
  start_file i s =
      if i % 256 == 0
      then (do saved ← save_current_out_data d none s; some (println include_shared saved))
      else some s

  -- The loop over the functions, from number `i` on, and the last file.
  unfoldable pub save_functions : ℕ → List Function → Session → Option Session
  save_functions i [] s = save_current_out_data d none s
  save_functions i (f ∷ fs) s = do
    started ← start_file i s
    save_functions (suc i) fs (print_all (fn_pieces (recompile_fn p f).0) started)

  -- `Recompiler::Recompile` with the base and size of the image and the context header, if it can be
  -- read.
  unfoldable pub recompile_all : ℕ → ℕ → Option ℕ → List Function → Session → Option Session
  recompile_all base size header fns s =
      let range = code_range p.sections (size_max, 0) in
      if range.0 == size_max then none else (do
        s1 ←
            save_current_out_data d (some config_h)
              (print_all (config_text p.config base size range) s)
        s2 ← save_current_out_data d (some context_h) (
            print_all
              (pragma_once ∷ include_config ∷ elim header [ none ↦ [] | some k ↦ raw k ∷ [] ]) s1)
        s3 ←
            save_current_out_data d (some shared_h) (
              print_all (pragma_once ∷ include_config ∷ include_context ∷ extern_texts p.symbols)
                s2)
        s4 ← save_current_out_data d (some func_mapping) (
            print_all
              (include_shared ∷ mapping_open ∷ mapping_texts p.symbols
                ++ (mapping_end ∷ mapping_close ∷ []))
              s3)
        save_functions 0 fns s4)
