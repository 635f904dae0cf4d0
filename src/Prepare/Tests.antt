-- ===== src/Prepare/Tests.antt =====
-- The theorem about src/prepare.c at a creator that sends cookies, and runs of the code.
use Prim.Native.String.{String}
use ext_pmmpthread.Prelude.{◌≡◌, refl, true, false, Option, none, some, List, [], ◌∷◌, map, arith}
use ext_pmmpthread.Prepare.Tables.{Table, find}
use ext_pmmpthread.Prepare.{
  IniEntry, Ini, inherit_value, inherit_all, prepare_ini, prepare_includes, prepare_sapi,
  fcall_end_all, call_shutdown, free_shutdown, request_shutdown, free_thread,
  call_shutdown_functions, prepared_shutdown, modify,
}
use ext_pmmpthread.Store.Types.{long}
use ext_pmmpthread.Prepare.Classes.{
  raw, copied, indirect, Ancestor, indirect_all, prepare_class_statics,
}
use ext_pmmpthread.Prepare.Statics.{shared_or_copied, prepare_class_statics_lem}

abbrev directive : String → IniEntry
directive v = record {
  value = some v;
  orig_value = none;
  modifiable = 7;
  orig_modifiable = 0;
  modified = false;
}

abbrev creator_ini : Table IniEntry
creator_ini = ("memory_limit", directive "1G") ∷ ("use_cookies", directive "1") ∷ []

abbrev own_ini : Ini
own_ini = record {
  directives = ("use_cookies", directive "1") ∷ ("memory_limit", directive "128M") ∷ [];
  modified = [];
  notified = [];
}

abbrev alter_found : String → String → Option IniEntry → Ini → Ini
alter_found n v none ini = ini
alter_found n v (some e) ini = modify n v e ini

-- The engine sets a directive that it has.
abbrev alter_entry : String → String → Ini → Ini
alter_entry n v ini = alter_found n v (find n ini.directives) ini

abbrev no_cookies : IniEntry
no_cookies = inherit_value "0" (directive "1")

notified_run :
    (prepare_ini alter_entry 0 creator_ini own_ini).notified
    ≡ ("use_cookies", "0") ∷ ("memory_limit", "1G") ∷ ("use_cookies", "1") ∷ []
unfolding prepare_ini inherit_all
notified_run = refl

-- The same with headers allowed.
modified_run :
    (prepare_ini alter_entry 268435456 creator_ini own_ini).modified ≡ "memory_limit" ∷ []
unfolding prepare_ini inherit_all
modified_run = refl

includes_run : prepare_includes ("a" ∷ "b" ∷ []) ("b" ∷ []) ≡ "b" ∷ "a" ∷ []
unfolding prepare_includes
includes_run = refl

sapi_run :
    (prepare_sapi 1
      (record { sapi_started = true; headers_sent = false; no_headers = false })).no_headers
    ≡ true
unfolding prepare_sapi
sapi_run = refl

shutdown_run :
    (call_shutdown_functions true true
      (record { in_shutdown = false; current_execute_data = some 3 })).1
    ≡ fcall_end_all ∷ call_shutdown ∷ free_shutdown ∷ []
unfolding call_shutdown_functions
shutdown_run = refl

request_run : prepared_shutdown 2 ≡ (false, (1, request_shutdown ∷ free_thread ∷ []))
unfolding prepared_shutdown
request_run = refl

-- A class with three slots; its parent has two, and the parent's parent one.
abbrev ancestors : List Ancestor
ancestors =
    (record { static_count = 2; has_table = true })
    ∷ (record { static_count = 1; has_table = true })
    ∷ []

prepare_class_statics_lem_example :
    (prepare_class_statics true ancestors 3 long (λ i. raw (long 9))).0 0
    ≡ shared_or_copied ancestors long 0
prepare_class_statics_lem_example =
    prepare_class_statics_lem ancestors 3 long (λ i. raw (long 9)) 0
      (omega arith, ((λ h. refl), (omega arith, ((λ h. refl), tt)))) (omega arith)

statics_run :
    map (prepare_class_statics true ancestors 3 long (λ i. raw (long 9))).0 (0 ∷ 1 ∷ 2 ∷ [])
    ≡ indirect 1 0 ∷ indirect 0 1 ∷ copied (long 2) ∷ []
unfolding prepare_class_statics indirect_all
statics_run = refl
