-- ===== src/Prepare/Runtime.antt =====
-- src/prepare.c: the start-up of a thread's engine, with what the thread takes over from its creator.
use Prim.Native.String.{String}
use ext_pmmpthread.Prelude.{ℕ, suc, ◌%◌, Bool, false, Option, none, some, List, map, if◌then◌else◌}
use ext_pmmpthread.Routine
use ext_pmmpthread.Monitor.{ready}
use ext_pmmpthread.Store.Types.{Zval}
use ext_pmmpthread.Copy.Functions.{Function}
use ext_pmmpthread.Prepare.Tables.{Table}
use ext_pmmpthread.Prepare.{IniEntry, Ini, Sapi, prepare_ini, prepare_includes, prepare_sapi}
use ext_pmmpthread.Prepare.Startup.{
  Known, prepare_functions, Constant, prepare_constants, AutoGlobal, arm_auto_global, inherits,
  inherit_ini, inherit_constants, inherit_functions, inherit_classes, inherit_includes, ◌>>=◌,
}

-- What the thread has of its own that the start-up changes; `classes` is the state of its classes.
pub record Runtime (S : Type 0) : Type 0 where
  pub expose_php : Bool
  pub auto_globals_jit : Bool
  pub during_request_startup : Bool
  pub auto_globals : List AutoGlobal
  pub options : ℕ
  pub sapi : Sapi
  pub ini : Ini
  pub constants : Table Constant
  pub known : Known
  pub classes : S
  pub included_files : List String

-- What it takes over; the context of the server and the arguments are copied as they are.
pub record Creator : Type 0 where
  pub ini : Table IniEntry
  pub constants : Table Constant
  pub functions : Table Function
  pub included_files : List String

-- What the start-up calls: the engine's functions, the copies of values, the copies of all classes
-- and of the class of the thread, with the late bindings.
pub record Calls (S : Type 0) : Type 0 where
  pub request_startup : Runtime S → Runtime S
  pub alter : String → String → Ini → Ini
  pub lower : String → String
  pub copied : Zval → Option Zval
  pub register_constant : String → Constant → Table Constant → Table Constant
  pub prepare_classes : S → S
  pub create_entry : S → S

module _ {S : Type 0} (C : Calls S) where
  abbrev pub engine_started : ℕ → Runtime S → Runtime S
  engine_started options r =
      let r' = C.request_startup (record r { expose_php = false; auto_globals_jit = false }) in
      record r' {
        during_request_startup = false;
        auto_globals = map arm_auto_global r'.auto_globals;
        options = options;
        sapi = prepare_sapi options r'.sapi;
      }

  abbrev pub with_ini : ℕ → Creator → Runtime S → Runtime S
  with_ini options from r =
      if inherits inherit_ini options
      then record r { ini = prepare_ini C.alter options from.ini r.ini }
      else r

  abbrev pub set_constants : Runtime S → Option (Table Constant) → Option (Runtime S)
  set_constants r none = none
  set_constants r (some table) = some (record r { constants = table })

  abbrev pub with_constants : ℕ → Creator → Runtime S → Option (Runtime S)
  with_constants options from r =
      if inherits inherit_constants options
      then set_constants r
          (prepare_constants C.lower C.copied C.register_constant from.constants r.constants)
      else some r

  abbrev pub with_functions : ℕ → Creator → Runtime S → Runtime S
  with_functions options from r =
      if inherits inherit_functions options
      then record r { known = prepare_functions from.functions r.known }
      else r

  abbrev pub with_classes : ℕ → Runtime S → Runtime S
  with_classes options r =
      if inherits inherit_classes options
      then record r { classes = C.prepare_classes r.classes }
      else record r { classes = C.create_entry r.classes }

  abbrev pub with_includes : ℕ → Creator → Runtime S → Runtime S
  with_includes options from r =
      if inherits inherit_includes options
      then record r { included_files = prepare_includes from.included_files r.included_files }
      else r

  -- The thread, the flags of the monitor that its creator waits at, and the number of threads.
  unfoldable pub prepared_startup :
      ℕ → Creator → Runtime S → (flags thread_count : ℕ) → Option (Runtime S × (ℕ × ℕ))
  prepared_startup options from r flags threads = do
    c ← with_constants options from (with_ini options from (engine_started options r))
    some (
      with_includes options from (with_classes options (with_functions options from c)),
      (Routine.add ready flags, suc threads % 4294967296),
    )
