-- ===== src/Prepare/StartTests.antt =====
-- The theorem about the functions that src/prepare.c copies at a creator with two functions, and runs of
-- the start-up.
use Prim.Native.String.{String}
use ext_pmmpthread.Prelude.{ℕ, ◌≡◌, refl, true, false, Option, none, some, List, [], ◌∷◌, map}
use ext_pmmpthread.Store.Types.{Zval, long, resource}
use ext_pmmpthread.Copy.Functions.{
  Head, Function, function, no_more, more, Copies, copy_function, copy_dynamic_func_defs,
  add_function_ref, found_or_made, register,
}
use ext_pmmpthread.Copy.Once.{copied_once}
use ext_pmmpthread.Prepare.{prepare_includes}
use ext_pmmpthread.Prepare.Tables.{Table}
use ext_pmmpthread.Prepare.Startup.{prepare_functions, Constant, prepare_constants, arm_auto_global}
use ext_pmmpthread.Prepare.Runtime.{Runtime, Creator, Calls, prepared_startup}
use ext_pmmpthread.Prepare.Known.{IsKnown, prepare_functions_lem}

abbrev compiled : (addr : ℕ) → Head
compiled a = record {
  addr = a;
  opcodes = a;
  user = true;
  immutable = false;
  closure = false;
  counted = true;
  arena = false;
}

-- A function in which a closure is declared.
abbrev outer : Function
outer =
    function (compiled 100)
      (more (function (record (compiled 200) { closure = true }) no_more) no_more)

abbrev plain : Function
plain = function (compiled 300) no_more

abbrev nothing : Copies
nothing = record {
  resolve = λ a. none;
  bases = λ a. none;
  copies = λ a. none;
  refs = λ a. 0;
  names = λ a. 0;
  next = 1000;
}

abbrev functions : Table Function
functions = ("outer", outer) ∷ ("plain", plain) ∷ []

copied_once_example :
    let (c, s1) = copy_function outer nothing in
    let s2 = copy_dynamic_func_defs (more plain no_more) s1 in
    copy_function outer s2 ≡ (c, add_function_ref c s2)
copied_once_example = copied_once outer (more plain no_more) nothing refl

prepare_functions_lem_example : IsKnown "plain" plain (prepare_functions functions ([], nothing))
prepare_functions_lem_example =
    prepare_functions_lem functions ([], nothing) "plain" plain (refl, (refl, tt)) refl refl refl
      refl

functions_run :
    (prepare_functions functions (("plain", 7) ∷ [], nothing)).0
    ≡ ("plain", 7) ∷ ("outer", 1000) ∷ []
unfolding prepare_functions copy_function found_or_made register add_function_ref
functions_run = refl

-- The closure's copy is held by the table and by the function that declares it.
closure_run : (copy_function outer nothing).1.refs 1002 ≡ 2
unfolding copy_function found_or_made register add_function_ref
closure_run = refl

abbrev constant : Zval → Constant
constant v = record { named = true; value = v; flags = 0 }

abbrev constants_of : Table Constant → Option (Table Constant)
constants_of from =
    prepare_constants (λ n. n) some (λ n c table. (n, c) ∷ table) from
      (("A", constant (long 1)) ∷ [])

constants_run :
    constants_of
      (("A", constant (long 2)) ∷ ("STDIN", constant (resource 3)) ∷ ("B", constant (long 4)) ∷ [])
    ≡ some (("B", constant (long 4)) ∷ ("A", constant (long 1)) ∷ [])
unfolding prepare_constants
constants_run = refl

armed_run :
    map
      (λ g. (arm_auto_global g).armed)
      (record { jit = true; armed = true; callback = none }
        ∷ record { jit = false; armed = true; callback = none }
        ∷ [])
    ≡ false ∷ true ∷ []
unfolding arm_auto_global
armed_run = refl

abbrev idle : Runtime ℕ
idle = record {
  expose_php = true;
  auto_globals_jit = true;
  during_request_startup = true;
  auto_globals = [];
  options = 0;
  sapi = record { sapi_started = true; headers_sent = false; no_headers = false };
  ini = record { directives = []; modified = []; notified = [] };
  constants = [];
  known = ([], nothing);
  classes = 0;
  included_files = [];
}

abbrev creator : Creator
creator = record { ini = []; constants = []; functions = functions; included_files = "a.php" ∷ [] }

abbrev calls : Calls ℕ
calls = record {
  request_startup = λ r. r;
  alter = λ n v ini. ini;
  lower = λ n. n;
  copied = some;
  register_constant = λ n c table. table;
  prepare_classes = λ s. 2;
  create_entry = λ s. 1;
}

abbrev classes_and_files : Option (Runtime ℕ × (ℕ × ℕ)) → Option (ℕ × (List String × (ℕ × ℕ)))
classes_and_files none = none
classes_and_files (some (r, q)) = some (r.classes, (r.included_files, q))

-- INHERIT_INCLUDES alone: only the class of the thread is copied.
startup_run :
    classes_and_files (prepared_startup calls 65536 creator idle 0 4)
    ≡ some (1, ("a.php" ∷ [], (16, 5)))
unfolding prepared_startup prepare_includes
startup_run = refl
