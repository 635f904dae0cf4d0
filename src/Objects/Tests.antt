-- ===== src/Objects/Tests.antt =====
-- The theorems about src/object.c at a concrete run and a concrete object, and runs of the code.
use ext_pmmpthread.Prelude.{
  ℕ, ◌≡◌, refl, true, false, Option, none, some, ◌⊎◌, ◌↔◌, [], ◌∷◌, inl, not, ◌==◌, if◌then◌else◌,
  arith,
}
use ext_pmmpthread.Zend.{invalid_idx}
use ext_pmmpthread.Zend.Keys.{Key, key_eq}
use ext_pmmpthread.Zend.Array.{array}
use ext_pmmpthread.Store.Types.{Zval, Storage}
use ext_pmmpthread.Store.State.{Local, Engine, State}
use ext_pmmpthread.Store.Bounds.{IsBounded}
use ext_pmmpthread.Objects.Iterator.{Iterator, iterator_rewind, iterator_create, iterator_get_gc}
use ext_pmmpthread.Objects.Foreach.{keys_of, visit}
use ext_pmmpthread.Objects.Loop.{foreach_lem}
use ext_pmmpthread.Objects.Classes.{write_property_defaults, write_class_defaults}
use ext_pmmpthread.Objects.{
  ZendObject, World, at, base_ctor, object_connect, base_free, object_alloc, belongs_to, enter,
  object_valid, connect_valid, reuse_or_connect, new_connection, connect_nolock, ts_object_ctor,
}
use ext_pmmpthread.Objects.Heap.{users}
use ext_pmmpthread.Objects.Steps.{Fresh, create, connect, empty, Reach, start, later}
use ext_pmmpthread.Objects.Invariant.{count_of}
use ext_pmmpthread.Objects.Connect.{Connected}
use ext_pmmpthread.Objects.Lifetime.{
  refcount-Reach, one_connection, object_connect_lem, base_free_lem,
}

abbrev made_or : World → Option World → World
made_or w none = w
made_or w (some v) = v

abbrev answered_or : World → Option (Option ℕ × World) → World
answered_or w none = w
answered_or w (some (c, v)) = v

-- Thread 1 makes an object with a connection at 10.
unfoldable one_object : World
unfolding base_ctor object_alloc belongs_to enter ts_object_ctor
one_object = made_or empty (base_ctor 1 10 20 0 empty)

-- Then thread 2 connects to it.
unfoldable two_connections : World
unfolding one_object object_connect object_valid connect_valid reuse_or_connect new_connection
    connect_nolock
two_connections = answered_or one_object (object_connect 2 10 11 21 0 one_object)

one_object-Reach : Reach one_object
unfolding one_object base_ctor object_alloc belongs_to enter ts_object_ctor
one_object-Reach = later start (
    create 1 10 20 0 one_object
      (record { base_unused = refl; base_null = ground arith; ts_unused = refl }) refl)

two_connections-Reach : Reach two_connections
unfolding two_connections one_object object_connect object_valid connect_valid reuse_or_connect
    new_connection
two_connections-Reach = later one_object-Reach (
    connect 2 10 11 21 0 (some 11) two_connections
      (record { base_unused = refl; base_null = ground arith; ts_unused = refl }) refl)

refcount-Reach_example :
    (count_of (two_connections.ts_objs 20) ≡ users 20 two_connections.live)
    × ((two_connections.ts_objs 20 ≡ none) ↔ (users 20 two_connections.live ≡ 0))
refcount-Reach_example = refcount-Reach two_connections 20 two_connections-Reach

two_users : users 20 two_connections.live ≡ 2
unfolding two_connections
two_users = refl

abbrev second : ZendObject
second = record {
  addr = 11;
  ts_obj = 20;
  owner = 2;
  local_props_modcount = 18446744073709551615;
  worker_data = false;
}

second-at : at 11 two_connections.live ≡ some second
unfolding two_connections one_object object_connect object_valid connect_valid reuse_or_connect
    new_connection
second-at = refl

two_connections-Fresh : Fresh 12 22 two_connections
unfolding two_connections one_object object_connect object_valid connect_valid reuse_or_connect
    new_connection
two_connections-Fresh = record { base_unused = refl; base_null = ground arith; ts_unused = refl }

one_connection_example : ◌≡◌ {A = ℕ} 11 11
one_connection_example =
    one_connection two_connections 11 11 second second two_connections-Reach second-at second-at
      refl refl

-- The first thread's own connection is what it gets for the address of the second's.
object_connect_lem_example :
    (((at 11 two_connections.live ≡ none)
        × (object_connect 1 11 12 22 0 two_connections ≡ some (none, two_connections)))
      ⊎ ((original : ZendObject) × ((c : ℕ) × ((w' : World) × ((at 11 two_connections.live
                  ≡ some original)
                × ((object_connect 1 11 12 22 0 two_connections ≡ some (some c, w'))
                    × Connected 1 original c w'))))))
    × (object_connect 3 12 13 22 0 (object_alloc 12 two_connections) ≡ none)
object_connect_lem_example =
    object_connect_lem 1 3 11 12 22 0 13 two_connections two_connections-Reach two_connections-Fresh

base_free_lem_example :
    (w' : World) × ((base_free 2 11 two_connections ≡ some w')
      × ((at 11 w'.live ≡ none) × ((w'.ts_objs 20 ≡ none) ↔ (users 20 two_connections.live ≡ 1))))
base_free_lem_example = base_free_lem 2 two_connections second two_connections-Reach second-at refl

refused : object_connect 3 99 12 22 0 two_connections ≡ some (none, two_connections)
unfolding object_connect object_valid two_connections one_object
refused = refl

-- An object with two members.
abbrev engine : Engine
engine = record {
  Z = array Storage;
  L = array Local;
  handle_numeric = λ s. none;
  get_string = λ z. "";
}

abbrev members : engine.Z.Table
members =
    engine.Z.update (engine.Z.update engine.Z.init (Key.index 4) (Storage.long 5)) (Key.name "b")
      Storage.null

abbrev object : State engine
object = record {
  props = record { hash = members; first = invalid_idx; last = invalid_idx; modcount = 0 };
  threaded = record { properties = none; local_props_modcount = 0; owner = 1 };
}

object-IsBounded : IsBounded engine object.props
unfolding key_eq
object-IsBounded = record {
  bounds = record { first-ok = inl refl; last-ok = inl refl };
  room = omega arith;
}

abbrev used : Iterator
used = record { current = Zval.null; position = invalid_idx }

foreach_lem_example :
    let (st', it') = iterator_rewind engine true object used in
    visit engine 8 st' it'
    ≡ keys_of ((Key.index 4, Storage.long 5) ∷ (Key.name "b", Storage.null) ∷ [])
unfolding key_eq
foreach_lem_example =
    foreach_lem engine 7 object used (Key.index 4, Storage.long 5)
      ((Key.name "b", Storage.null) ∷ []) object-IsBounded refl (omega arith)

by_reference : iterator_create engine true true object ≡ none
unfolding iterator_create
by_reference = refl

shown_to_collector : iterator_get_gc used ≡ Zval.null ∷ []
unfolding iterator_get_gc
shown_to_collector = refl

-- The second property cannot be stored; the third is not tried.
defaults :
    (write_property_defaults
      (λ n v s. (not (v == 0), v ∷ s))
      (λ n s. 404 ∷ s)
      (((record { in_object = true; name = "a"; offset = 0 })
          ∷ (record { in_object = true; name = "b"; offset = 1 })
          ∷ (record { in_object = true; name = "c"; offset = 2 })
          ∷ [])
        ∷ [])
      ((λ o. if o == 1 then some 0 else some 7), [])).1
    ≡ 404 ∷ 0 ∷ 7 ∷ []
unfolding write_property_defaults write_class_defaults
defaults = refl
