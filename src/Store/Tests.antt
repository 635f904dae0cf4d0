-- ===== src/Store/Tests.antt =====
-- The theorems about stores at concrete tables, and runs of the code.
use ext_pmmpthread.Prelude.{
  ℕ, ◌^◌, ◌-◌, ◌≡◌, refl, inl, inr, true, false, none, some, [], ◌∷◌, ◌++◌, ◌&&◌, not, is_some, suc,
  ltb, length, arith,
}
use ext_pmmpthread.Zend.{invalid_idx}
use ext_pmmpthread.Zend.Keys.{Key, key_eq}
use ext_pmmpthread.Zend.Buckets.{Slots, entries}
use ext_pmmpthread.Zend.Array.{array}
use ext_pmmpthread.Store.Types.{ZendString, Zval, Storage, string_data}
use ext_pmmpthread.Store.Values.{Thread, save_zval, restore_zval, create}
use ext_pmmpthread.Store.State.{
  Local, cached, mod_width, Engine, Offset, Connection, State, coerce, still_cached,
  sync_local_properties,
}
use ext_pmmpthread.Store.Access.{property_not_empty, isset, write, member_of, delete_member}
use ext_pmmpthread.Store.Take.{shift, pop, hash_del, chunk}
use ext_pmmpthread.Store.Chunk.{chunk-returns}
use ext_pmmpthread.Store.Bounds.{slots_of, IsBounded}
use ext_pmmpthread.Store.Shift.{Takes, shift-Takes, pop-Takes}
use ext_pmmpthread.Store.Truth.{truthy, zero_string, isset-truthy}
use ext_pmmpthread.Store.RoundTrip.{storable, Restored, restore-save}
use ext_pmmpthread.Store.Append.{append-LosesLast}
use ext_pmmpthread.Store.Sync.{IsSynced, sync-IsSynced}
use ext_pmmpthread.Store.Coherence.{StillCached, InSync, cached-cacheable}
use ext_pmmpthread.Store.Deletion.{delete-InSync}
use ext_pmmpthread.Zend.Keys.{key_eq_iff}

abbrev engine : Engine
engine = record {
  Z = array Storage;
  L = array Local;
  handle_numeric = λ s. none;
  get_string = λ z. "";
}

abbrev thread : Thread
thread = record {
  ls = 1;
  fresh = 100;
  copy_closure = λ owner c. none;
  object_connect = λ o. some o;
  object_valid = λ o. true;
  ts_obj = λ o. o;
  enum_reference = λ c m. none;
}

abbrev reader : Thread
reader = record thread { ls = 2 }

-- The bytes "05".
abbrev text_05 : ZendString
text_05 = record { addr = 8; text = 48 ∷ 53 ∷ []; permanent = false }

abbrev shared_05 : Storage
shared_05 = Storage.ptr (string_data text_05 1)

abbrev store_of : engine.Z.Table → ℕ → State engine
store_of t last = record {
  props = record { hash = t; first = invalid_idx; last = last; modcount = 0 };
  threaded = record { properties = none; local_props_modcount = 2 ^ 64 - 1; owner = 1 };
}

abbrev two_members : engine.Z.Table
two_members =
    engine.Z.update (engine.Z.update engine.Z.init (Key.index 0) (Storage.long 5)) (Key.index 1)
      shared_05

abbrev with_hole : engine.Z.Table
with_hole = hash_del engine (engine.Z.update two_members (Key.index 2) Storage.null) (Key.index 1)

abbrev two : State engine
two = store_of two_members invalid_idx

two-IsBounded : IsBounded engine two.props
unfolding key_eq
two-IsBounded = record {
  bounds = record { first-ok = inl refl; last-ok = inl refl };
  room = omega arith;
}

shift-Takes_example :
    Takes engine thread two
      (Key.index 0)
      (Storage.long 5)
      ((Key.index 1, shared_05) ∷ [])
      (shift engine thread true two)
unfolding key_eq
shift-Takes_example =
    shift-Takes engine thread two (Key.index 0) (Storage.long 5) ((Key.index 1, shared_05) ∷ [])
      two-IsBounded refl

pop-Takes_example :
    Takes engine thread two
      (Key.index 1)
      shared_05
      ((Key.index 0, Storage.long 5) ∷ [])
      (pop engine thread true two)
unfolding key_eq
pop-Takes_example =
    pop-Takes engine thread two (Key.index 1) shared_05 ((Key.index 0, Storage.long 5) ∷ [])
      two-IsBounded refl

isset-truthy_example :
    isset engine true two (Offset.long 1) property_not_empty
    ≡ (truthy shared_05 && not (zero_string shared_05))
unfolding key_eq coerce
isset-truthy_example = isset-truthy engine two (Offset.long 1) shared_05 refl

restore-save_example :
    (storable (Zval.string text_05) ≡ true)
    × Restored reader 1 (Zval.string text_05) (restore_zval reader shared_05)
unfolding save_zval create
restore-save_example = restore-save thread reader 1 (Zval.string text_05) shared_05 refl

abbrev gap : Slots Storage
gap = some (Key.index 0, Storage.long 5) ∷ none ∷ []

abbrev holed : State engine
holed = store_of with_hole 2

append-LosesLast_example :
    let w = (write engine thread true holed none (Zval.long 7)).state in
    (entries (slots_of engine w.props)
      ≡ entries (slots_of engine holed.props)
        ++ (member_of engine holed.props none, Storage.long 7) ∷ [])
    × ((write engine thread true holed none (Zval.long 7)).asserted
        ≡ ltb (suc (length (entries gap))) (length gap))
    × ((r : Thread) → (pop engine r true w).value ≡ some Zval.null)
unfolding key_eq save_zval member_of
append-LosesLast_example =
    append-LosesLast engine thread holed (Zval.long 7) (Storage.long 7) gap
      (Key.index 2, Storage.null) refl (inl refl) refl refl (omega arith) (omega arith) refl

-- Another connection, that has cached the string.
abbrev watching : Connection engine
watching = record {
  properties = some (engine.L.update engine.L.init (Key.index 1) (cached (Zval.string text_05)));
  local_props_modcount = 0;
  owner = 1;
}

abbrev two_now : State engine
two_now = record two {
  threaded = record { properties = none; local_props_modcount = 0; owner = 1 };
}

two_now-InSync : InSync engine (StillCached thread) two_now.props two_now.threaded
two_now-InSync = record { coherent = λ e j l h. ground arith; behind = inl (omega arith) }

watching-InSync : InSync engine (StillCached thread) two_now.props watching
unfolding key_eq still_cached
watching-InSync = record {
  coherent = λ e j l h. ground (arith, key_eq_iff (Key.index 1) j);
  behind = inl (omega arith);
}

delete-InSync_example :
    let r = (delete_member engine (Key.index 1) two_now).state in
    InSync engine (StillCached thread) r.props r.threaded
    × InSync engine (StillCached thread) r.props watching
delete-InSync_example =
    delete-InSync engine (StillCached thread) (StillCached thread) (Key.index 1) two_now watching
      (cached-cacheable thread) (omega arith) two_now-InSync watching-InSync

chunk-returns_example : is_some (chunk engine thread true two 1) ≡ true
chunk-returns_example = chunk-returns engine thread two 1

-- A connection that has just been made to the store, which has no modifications.
abbrev fresh_connection : Connection engine
fresh_connection = record { properties = none; local_props_modcount = mod_width - 1; owner = 2 }

fresh-InSync : InSync engine (StillCached thread) two_now.props fresh_connection
fresh-InSync = record { coherent = λ e j l h. ground arith; behind = inr refl }

fresh_delete :
    let r = (delete_member engine (Key.index 1) two_now).state in
    InSync engine (StillCached thread) r.props fresh_connection
fresh_delete =
    (delete-InSync engine (StillCached thread) (StillCached thread) (Key.index 1) two_now
      fresh_connection (cached-cacheable thread) (omega arith) two_now-InSync fresh-InSync).1

-- A connection that is behind.
abbrev stale : State engine
stale = record { props = record two.props { modcount = 3 }; threaded = watching }

sync-IsSynced_example : IsSynced engine thread stale (sync_local_properties engine thread stale)
sync-IsSynced_example = sync-IsSynced engine thread stale (λ e k l h. ground arith)
