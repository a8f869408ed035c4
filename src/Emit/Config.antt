-- ===== src/Emit/Config.antt =====
-- `recompiler_config.h` as the translation reads it, and the steps of a case.
use xenon_recomp.Symbols.{Symbol}
use xenon_recomp.Emit.{Ref, Stmt}
use xenon_recomp.Base.{ℕ, Bool, Option, List, [], ◌∷◌}

-- `RecompilerSwitchTable`, `RecompilerMidAsmHook` and the part of `RecompilerConfig` that the
-- translation reads. The maps are functions.
pub record SwitchTable : Type 0 where
  pub r : ℕ
  pub labels : List ℕ

-- A hook's name is a number, its registers are the names that the lambda's switch picks, and a jump
-- address of 0 is none.
pub record Hook : Type 0 where
  pub id : ℕ
  pub registers : List Ref
  pub ret : Bool
  pub return_on_true : Bool
  pub return_on_false : Bool
  pub jump_address : ℕ
  pub jump_on_true : ℕ
  pub jump_on_false : ℕ
  pub after_instruction : Bool

pub record Config : Type 0 where
  pub skip_lr : Bool
  pub ctr_as_local : Bool
  pub xer_as_local : Bool
  pub reserved_as_local : Bool
  pub skip_msr : Bool
  pub cr_as_local : Bool
  pub non_argument_as_local : Bool
  pub non_volatile_as_local : Bool
  pub long_jmp_address : ℕ
  pub set_jmp_address : ℕ
  pub switch_tables : ℕ → Option SwitchTable
  pub hooks : ℕ → Option Hook

-- What one call of the translation is given: the configuration, the symbols of the image, the
-- function's range, the instruction's address, the switch table that the iterator is at, and
-- whether the word behind the instruction is `c_eieio`.
pub record Site : Type 0 where
  pub config : Config
  pub symbols : List Symbol
  pub fn_base : ℕ
  pub fn_size : ℕ
  pub address : ℕ
  pub table : Option SwitchTable
  pub mmio : Bool

-- A step of a case: a line, `printSetFlushMode`, or `csrState = CSRState::Unknown`.
pub data Cmd : Type 0 where
  println : Stmt Ref → Cmd
  set_flush_mode : Bool → Cmd
  forget_csr : Cmd

unfoldable pub lines : List (Stmt Ref) → List Cmd
lines [] = []
lines (s ∷ ss) = println s ∷ lines ss
