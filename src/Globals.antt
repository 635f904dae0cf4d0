-- ===== src/Globals.antt =====
-- src/globals.c and src/globals.h: what all threads share. `got` is what `pmmpthread_globals_lock`
-- returned; the lock is recursive, so that a call under the lock gets it too. The registry of objects
-- is in Objects.antt.
pub mod Strings
mod Tests
use ext_pmmpthread.Prelude.{
  ℕ, Bool, true, false, not, ◌&&◌, Option, none, some, List, [], ◌∷◌, ◌==◌, if◌then◌else◌, ℤ, pos,
  negsuc,
}
use ext_pmmpthread.Memory.{update}
use ext_pmmpthread.Store.Types.{ZendString}

-- struct _pmmpthread_globals, without the objects. `ready` is whether the monitor is there, `sockets`
-- are the keys of the table of shared sockets, and `interned` is the table of strings, whose keys are
-- their bytes.
pub record Globals : Type 0 where
  pub init : Bool
  pub failed : Bool
  pub ready : Bool
  pub sockets : ℕ → Bool
  pub interned : List ZendString
  pub thread_count : ℕ

abbrev pub same_text : List ℕ → List ℕ → Bool
same_text [] [] = true
same_text [] (d ∷ ds) = false
same_text (c ∷ cs) [] = false
same_text (c ∷ cs) (d ∷ ds) = (c == d) && same_text cs ds

-- zend_hash_find in the table of strings
abbrev pub find_text : List ℕ → List ZendString → Option ZendString
find_text t [] = none
find_text t (s ∷ ss) = if same_text s.text t then some s else find_text t ss

-- The parameter is `zend_interned_string_find_permanent`, a look-up by the bytes.
module _ (find_permanent : List ℕ → Option ZendString) where
  abbrev pub or_found : Option ZendString → Option ZendString → Option ZendString
  or_found none o = o
  or_found (some s) o = some s

  unfoldable pub find_interned_string : (got : Bool) → ZendString → Globals → Option ZendString
  find_interned_string got s g =
      if s.permanent
      then some s
      else or_found (find_permanent s.text) (if got then find_text s.text g.interned else none)

  -- The permanent copy of a string, at the address that malloc returns.
  abbrev pub copy_of : (fresh : ℕ) → ZendString → ZendString
  copy_of fresh s = record { addr = fresh; text = s.text; permanent = true }

  abbrev pub add_new :
      (fresh : ℕ) → ZendString → Option ZendString → Globals → Option ZendString × Globals
  add_new fresh s (some r) g = (some r, g)
  add_new fresh s none g =
      (some (copy_of fresh s), record g { interned = copy_of fresh s ∷ g.interned })

  -- The string that stands for the given one, or NULL where the lock is not taken.
  unfoldable pub add_interned_string :
      (got : Bool) → (fresh : ℕ) → ZendString → Globals → Option ZendString × Globals
  unfolding find_interned_string
  add_interned_string got fresh s g =
      if s.permanent
      then (some s, g)
      else if got
      then add_new fresh s (find_interned_string true s g) g
      else (none, g)

-- What a new monitor comes to: `made` is whether it could be made.
unfoldable pub globals_init : (made : Bool) → Globals → Bool × Globals
globals_init made g =
    if not g.init && not g.failed
    then (if made
        then (
          true,
          record g {
            init = true;
            ready = true;
            sockets = λ _. false;
            interned = [];
            thread_count = 0;
          },
        )
        else (false, record g { init = false; failed = true }))
    else (false, g)

-- The tables and the monitor are destroyed.
unfoldable pub globals_shutdown : Globals → Globals
globals_shutdown g =
    if g.init
    then record g {
      init = false;
      failed = false;
      ready = false;
      sockets = λ _. false;
      interned = [];
    }
    else g

-- A PHP_SOCKET is an int; a negative one is none.
unfoldable pub shared_socket_track : (got : Bool) → ℤ → Globals → Globals
shared_socket_track got (negsuc n) g = g
shared_socket_track got (pos n) g =
    if got then record g { sockets = update g.sockets n true } else g

unfoldable pub socket_shared : (got : Bool) → ℤ → Globals → Bool
socket_shared got (negsuc n) g = false
socket_shared got (pos n) g = if got then g.sockets n else false
