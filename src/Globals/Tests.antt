-- ===== src/Globals/Tests.antt =====
-- The theorem about src/globals.c at concrete strings, and runs of the code.
use ext_pmmpthread.Prelude.{
  ℕ, ◌≡◌, refl, true, false, Option, none, some, List, [], ◌∷◌, pos, negsuc, if◌then◌else◌, arith,
}
use ext_pmmpthread.Store.Types.{ZendString}
use ext_pmmpthread.Globals.{
  Globals, add_interned_string, find_interned_string, same_text, globals_init, globals_shutdown,
  shared_socket_track, socket_shared,
}
use ext_pmmpthread.Globals.Strings.{same_text_iff, add_all, added_once}

abbrev fresh_globals : Globals
fresh_globals = record {
  init = true;
  failed = false;
  ready = true;
  sockets = λ _. false;
  interned = [];
  thread_count = 0;
}

-- The bytes "run", which the engine has, and "abc", at two addresses.
abbrev engine_run : ZendString
engine_run = record { addr = 4; text = 114 ∷ 117 ∷ 110 ∷ []; permanent = true }

abbrev find_run : List ℕ → Option ZendString
find_run t = if same_text engine_run.text t then some engine_run else none

find_run-text : (t : List ℕ) (s : ZendString) → find_run t ≡ some s → s.text ≡ t
find_run-text t s e = ground (arith, same_text_iff engine_run.text t)

abbrev abc : ℕ → ZendString
abc a = record { addr = a; text = 97 ∷ 98 ∷ 99 ∷ []; permanent = false }

abbrev run_at : ℕ → ZendString
run_at a = record { addr = a; text = 114 ∷ 117 ∷ 110 ∷ []; permanent = false }

added_once_example :
    let g' =
      add_all find_run find_run-text
        ((901, run_at 20) ∷ [])
        (add_interned_string find_run true 900 (abc 10) fresh_globals).1 in
    (r : ZendString) × (((add_interned_string find_run true 900 (abc 10) fresh_globals).0 ≡ some r)
      × ((r.text ≡ (abc 10).text)
          × (add_interned_string find_run true 902 (abc 11) g' ≡ (some r, g'))))
added_once_example =
    added_once find_run find_run-text 900 902 (abc 10) (abc 11) ((901, run_at 20) ∷ [])
      fresh_globals refl refl refl

-- The engine's string is taken where there is one.
engine_first : (add_interned_string find_run true 900 (run_at 20) fresh_globals).0 ≡ some engine_run
unfolding add_interned_string find_interned_string
engine_first = refl

-- The globals are set up once.
set_up_twice : (globals_init true fresh_globals).0 ≡ false
unfolding globals_init
set_up_twice = refl

after_shutdown : (globals_init true (globals_shutdown fresh_globals)).0 ≡ true
unfolding globals_init globals_shutdown
after_shutdown = refl

tracked : socket_shared true (pos 5) (shared_socket_track true (pos 5) fresh_globals) ≡ true
unfolding socket_shared shared_socket_track
tracked = refl

no_socket :
    socket_shared true (negsuc 0) (shared_socket_track true (negsuc 0) fresh_globals) ≡ false
unfolding socket_shared shared_socket_track
no_socket = refl
