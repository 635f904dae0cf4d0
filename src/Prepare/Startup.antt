-- ===== src/Prepare/Startup.antt =====
-- src/prepare.c: the functions and constants that a new thread takes over, and the options for them.
use Prim.Native.Nat.{bit_and}
use Prim.Native.String.{String}
use ext_pmmpthread.Prelude.{
  ℕ, Bool, true, false, not, ◌&&◌, ◌||◌, Option, none, some, [], ◌∷◌, ◌++◌, is_some, ◌==◌,
  if◌then◌else◌,
}
use ext_pmmpthread.Store.Types.{Zval, resource}
use ext_pmmpthread.Copy.Functions.{Function, function, Copies, copy_function}
use ext_pmmpthread.Prepare.Tables.{Table, find}

abbrev pub is_user : Function → Bool
is_user (function h fs) = h.user

-- The functions of a thread by their names, and what it has copied.
abbrev pub Known : Type 0
Known = Table ℕ × Copies

abbrev pub is_skipped : String → Function → Table ℕ → Bool
is_skipped name f table = not (is_user f) || is_some (find name table)

abbrev pub add_copy : String → Function → Known → Known
add_copy name f (table, s) = let (c, s') = copy_function f s in (table ++ (name, c) ∷ [], s')

abbrev pub prepare_function : String → Function → Known → Known
prepare_function name f known = if is_skipped name f known.0 then known else add_copy name f known

-- The loop over the creator's functions.
unfoldable pub prepare_functions : Table Function → Known → Known
prepare_functions [] known = known
prepare_functions ((name, f) ∷ more) known = prepare_functions more (prepare_function name f known)

-- A fatal error ends the process.
infixl 5 ◌>>=◌
abbrev pub ◌>>=◌ : {A B : Type 0} → Option A → (A → Option B) → Option B
none >>= k = none
some a >>= k = k a

-- zend_constant: whether it has a name, its value and its flags.
pub record Constant : Type 0 where
  pub named : Bool
  pub value : Zval
  pub flags : ℕ

abbrev pub is_resource : Zval → Bool
is_resource (resource r) = true
is_resource _ = false

-- The parameters are zend_string_tolower, the copies of values, and zend_register_constant. A value
-- that cannot be copied ends the process: the result is none.
module _ (lower : String → String) (copied : Zval → Option Zval)
    (register_constant : String → Constant → Table Constant → Table Constant) where
  abbrev pub constant_exists : String → Table Constant → Bool
  constant_exists name table = is_some (find name table) || is_some (find (lower name) table)

  abbrev pub with_value : String → Constant → Option Zval → Table Constant → Option (Table Constant)
  with_value name from none table = none
  with_value name from (some v) table =
      some (register_constant name (record { named = true; value = v; flags = from.flags }) table)

  abbrev pub prepare_constant : String → Constant → Table Constant → Option (Table Constant)
  prepare_constant name from table =
      if not from.named || is_resource from.value || constant_exists name table
      then some table
      else with_value name from (copied from.value) table

  unfoldable pub prepare_constants : Table Constant → Table Constant → Option (Table Constant)
  prepare_constants [] table = some table
  prepare_constants ((name, from) ∷ more) table = do
    table' ← prepare_constant name from table
    prepare_constants more table'

-- The automatic globals of a thread: `jit`, `armed`, and the answer of the callback where there is one.
pub record AutoGlobal : Type 0 where
  pub jit : Bool
  pub armed : Bool
  pub callback : Option Bool

abbrev pub called_back : Option Bool → Bool
called_back none = false
called_back (some answer) = answer

unfoldable pub arm_auto_global : AutoGlobal → AutoGlobal
arm_auto_global g = if g.jit && g.armed then record g { armed = called_back g.callback } else g

-- PMMPTHREAD_INHERIT_*
abbrev pub inherit_ini : ℕ
inherit_ini = 1

abbrev pub inherit_constants : ℕ
inherit_constants = 16

abbrev pub inherit_functions : ℕ
inherit_functions = 256

abbrev pub inherit_classes : ℕ
inherit_classes = 4096

abbrev pub inherit_includes : ℕ
inherit_includes = 65536

abbrev pub inherits : (option options : ℕ) → Bool
inherits option options = not (bit_and options option == 0)
