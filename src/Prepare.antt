-- ===== src/Prepare.antt =====
-- src/prepare.c: what a new thread takes over from its creator before it runs. Here are the directives
-- of the configuration, the names of the included files, the state of the server interface, and the end of
-- the thread's request; the functions and constants are in Startup, and the whole is in Runtime.
pub mod Tables
pub mod Directives
pub mod Classes
pub mod Statics
pub mod Entries
pub mod Kept
pub mod Made
pub mod Hierarchy
pub mod Startup
pub mod Runtime
mod StartTests
mod ClassTests
pub mod Known
mod Tests
use Prim.Native.Nat.{bit_and}
use Prim.Native.String.{String}
use text.Mathlib.Text.{◌==◌ as str_eq}
use ext_pmmpthread.Prelude.{
  ℕ, ◌+◌, ◌%◌, Bool, true, false, not, Option, none, some, List, [], ◌∷◌, ◌++◌, ◌==◌, if◌then◌else◌,
}
use ext_pmmpthread.Prepare.Tables.{Table, find, replace}

-- PMMPTHREAD_ALLOW_HEADERS
abbrev pub allow_headers : ℕ
allow_headers = 268435456

abbrev pub allows_headers : ℕ → Bool
allows_headers options = not (bit_and options allow_headers == 0)

-- zend_ini_entry: `modifiable` is the word that says who may change the directive.
pub record IniEntry : Type 0 where
  pub value : Option String
  pub orig_value : Option String
  pub modifiable : ℕ
  pub orig_modifiable : ℕ
  pub modified : Bool

-- The thread's directives, the names of those that were changed, which are to be restored when its
-- request ends, and the calls of `on_modify`, each with the directive's name and the new value; what
-- such a call does to the state of an extension is not modelled.
pub record Ini : Type 0 where
  pub directives : Table IniEntry
  pub modified : List String
  pub notified : List (String × String)

-- zend_hash_add_ptr, zend_hash_add_empty_element: a key that is there is not added again.
abbrev pub has_name : String → List String → Bool
has_name n [] = false
has_name n (m ∷ ms) = if str_eq m n then true else has_name n ms

abbrev pub add_name : String → List String → List String
add_name n ns = if has_name n ns then ns else ns ++ n ∷ []

-- A directive that is given a value: what it had is kept the first time, and `modifiable`, which is 1
-- while `on_modify` runs, is put back.
abbrev pub inherit_value : String → IniEntry → IniEntry
inherit_value v e = if e.modified then record e { value = some v } else record e {
  value = some v;
  orig_value = e.value;
  orig_modifiable = e.modifiable;
  modified = true;
}

abbrev pub modify : String → String → IniEntry → Ini → Ini
modify n v e ini = record {
  directives = replace n (inherit_value v e) ini.directives;
  modified = if e.modified then ini.modified else add_name n ini.modified;
  notified = ini.notified ++ (n, v) ∷ [];
}

-- The values have no NUL byte, so that strcmp compares the whole of them.
abbrev pub inherit_both : String → Option String → Option String → IniEntry → Ini → Ini
inherit_both n none w e ini = ini
inherit_both n (some v) none e ini = ini
inherit_both n (some v) (some w) e ini = if str_eq v w then ini else modify n v e ini

abbrev pub inherit_found : String → IniEntry → Option IniEntry → Ini → Ini
inherit_found n from none ini = ini
inherit_found n from (some e) ini = inherit_both n from.value e.value e ini

-- The loop over the creator's directives.
unfoldable pub inherit_all : Table IniEntry → Ini → Ini
inherit_all [] ini = ini
inherit_all ((n, from) ∷ more) ini =
    inherit_all more (inherit_found n from (find n ini.directives) ini)

-- The parameter is zend_alter_ini_entry_chars; the names are those of `strings.session`.
module _ (alter : String → String → Ini → Ini) where
  abbrev pub without_headers : ℕ → Ini → Ini
  without_headers options ini =
      if allows_headers options
      then ini
      else alter "use_cookies" "0" (alter "cache_limiter" "nocache" ini)

  unfoldable pub prepare_ini : (options : ℕ) → Table IniEntry → Ini → Ini
  prepare_ini options creator ini = inherit_all creator (without_headers options ini)

unfoldable pub prepare_includes : (creator : List String) → List String → List String
prepare_includes [] files = files
prepare_includes (f ∷ fs) files = prepare_includes fs (add_name f files)

-- The fields of the server interface that are set.
pub record Sapi : Type 0 where
  pub sapi_started : Bool
  pub headers_sent : Bool
  pub no_headers : Bool

unfoldable pub prepare_sapi : (options : ℕ) → Sapi → Sapi
prepare_sapi options s =
    if allows_headers options
    then record s { sapi_started = false }
    else record s { sapi_started = false; headers_sent = true; no_headers = true }

-- What the end of a thread asks of the engine, in order.
pub data EngineCall : Type 0 where
  fcall_end_all call_shutdown free_shutdown request_shutdown free_thread : EngineCall

-- EG_FLAGS_IN_SHUTDOWN and the current frame of the executor.
pub record Executor : Type 0 where
  pub in_shutdown : Bool
  pub current_execute_data : Option ℕ

unfoldable pub call_shutdown_functions :
    (observed activated : Bool) → Executor → Executor × List EngineCall
call_shutdown_functions observed activated x = (
  record x { in_shutdown = true; current_execute_data = none },
  (if observed then fcall_end_all ∷ [] else [])
      ++ (if activated then call_shutdown ∷ [] else [])
      ++ (if activated then free_shutdown ∷ [] else []),
)

-- `report_memleaks` is cleared; the count of the threads is a 32-bit word. What is returned is whether
-- leaks are reported, the count, and the calls.
unfoldable pub prepared_shutdown : (thread_count : ℕ) → Bool × (ℕ × List EngineCall)
prepared_shutdown n = (false, ((n + 4294967295) % 4294967296, request_shutdown ∷ free_thread ∷ []))
