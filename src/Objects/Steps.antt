-- ===== src/Objects/Steps.antt =====
-- Threads that make, connect and free objects, in any order (src/object.c).
use ext_pmmpthread.Prelude.{ℕ, ◌≡◌, ◌≢◌, Option, none, some, [], false}
use ext_pmmpthread.Store.Types.{Ident}
use ext_pmmpthread.Objects.{ZendObject, World, at, base_ctor, object_connect, base_free}

-- What the allocator may return: addresses at which there is nothing.
pub record Fresh (base ts : ℕ) (w : World) : Type 0 where
  pub base_unused : at base w.live ≡ none
  pub base_null : base ≢ 0
  pub ts_unused : w.ts_objs ts ≡ none

-- One step: a thread makes an object, connects to an address, or frees a connection that it owns.
-- Connecting holds the global lock throughout, and freeing takes a connection out of the registry under
-- it before anything else. Making an object registers the address under the lock and sets the fields
-- there without it; it is one step here, so that no thread connects to the address in between. What
-- such a connect would find is in `Objects/Lifetime.antt`.
pub data Step (w : World) : World → Type 0 where
  create :
      (t : Ident) (base ts scope : ℕ) (w' : World)
      → Fresh base ts w
      → base_ctor t base ts scope w ≡ some w'
      → Step w w'
  connect :
      (t : Ident) (address base ts scope : ℕ) (c : Option ℕ) (w' : World)
      → Fresh base ts w
      → object_connect t address base ts scope w ≡ some (c, w')
      → Step w w'
  free :
      (t : Ident) (base : ℕ) (z : ZendObject) (w' : World)
      → at base w.live ≡ some z
      → z.owner ≡ t
      → base_free t base w ≡ some w'
      → Step w w'

abbrev pub empty : World
empty = record {
  live = [];
  ts_objs = λ _. none;
  objects = λ _. false;
  resolve = λ _ _. none;
  connecting_object = λ _. none;
  refs = λ _. 0;
  shared_globals = 0;
  local_shared_globals = λ _. 0;
}

pub data Reach : World → Type 0 where
  start : Reach empty
  later : {w u : World} → Reach w → Step w u → Reach u
