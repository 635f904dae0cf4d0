-- ===== src/Store/Access.antt =====
-- src/store.c: reading, writing, testing, counting and deleting one member. `got` is what
-- `pmmpthread_monitor_lock` returned.
use ext_pmmpthread.Prelude.{
  ℕ, ◌^◌, Bool, true, false, not, ◌&&◌, ◌||◌, Option, none, some, List, [], ◌∷◌, ◌==◌,
  if◌then◌else◌, is_some,
}
use ext_pmmpthread.Zend.{invalid_idx}
use ext_pmmpthread.Zend.Keys.{Key}
use ext_pmmpthread.Store.Types.{Zval, Storage, object_data, string_data}
use ext_pmmpthread.Store.Values.{Thread, save_zval, restore_zval}
use ext_pmmpthread.Store.State.{
  indirect, cached, Engine, Offset, Store, Connection, State, invalidate_bounds, coerce, bump_if,
  bump_modcount, member_is_cacheable, forget, sync_local_properties, update_local_property,
  update_shared_property,
}

-- `has_set_exists`: ZEND_PROPERTY_EXISTS, ZEND_PROPERTY_ISSET and ZEND_PROPERTY_NOT_EMPTY.
pub data HasSet : Type 0 where
  property_exists property_isset property_not_empty : HasSet

-- `Z_STRLEN(s) == 0 || Z_STRVAL(s)[0] == '0'`
unfoldable pub empty_or_0 : List ℕ → Bool
empty_or_0 [] = true
empty_or_0 (c ∷ cs) = c == 48

-- What `pmmpthread_store_isset` answers for an element that is there; 0.0 and -0.0 equal 0.0.
unfoldable pub is_set : HasSet → Storage → Bool
unfolding empty_or_0
is_set HasSet.property_exists z = true
is_set HasSet.property_isset Storage.null = false
is_set HasSet.property_isset _ = true
is_set HasSet.property_not_empty Storage.null = false
is_set HasSet.property_not_empty (Storage.bool b) = b
is_set HasSet.property_not_empty (Storage.long n) = not (n == 0)
is_set HasSet.property_not_empty (Storage.double d) = not (d == 0 || d == 2 ^ 63)
is_set HasSet.property_not_empty (Storage.string s) = not (empty_or_0 s.text)
is_set HasSet.property_not_empty (Storage.ptr (string_data s owner)) = not (empty_or_0 s.text)
is_set HasSet.property_not_empty (Storage.ptr _) = true

abbrev pub is_object : Option Storage → Bool
is_object (some (Storage.ptr (object_data o))) = true
is_object _ = false

module _ (E : Engine) where
  -- `none` is FAILURE.
  pub record Read : Type 0 where
    pub state : State E
    pub value : Option Zval
    pub thrown : Bool

  -- `asserted` tells that `ZEND_ASSERT(0)` was reached: there a build with assertions stops, and one
  -- without them goes on with the position as it is, which is the state given here.
  pub record Written : Type 0 where
    pub state : State E
    pub success : Bool
    pub asserted : Bool

  pub record Deleted : Type 0 where
    pub state : State E
    pub success : Bool

  unfoldable pub isset : (got : Bool) → State E → Offset → HasSet → Bool
  unfolding coerce is_set
  isset false st key has_set_exists = false
  isset true st key has_set_exists = elim (E.Z.find st.props.hash (coerce E key).0) [
    | none ↦ false
    | some z ↦ is_set has_set_exists z
  ]

  unfoldable pub count : (got : Bool) → Store E → ℕ
  count got s = if got then E.Z.num_elements s.hash else 0

  unfoldable pub delete_member : Key → State E → Deleted
  unfolding member_is_cacheable bump_modcount invalidate_bounds
  delete_member k st = elim (E.Z.del st.props.hash k) [
    | none ↦ record { state = record st { props = invalidate_bounds E st.props }; success = false }
    | some t ↦
        (let st' =
            bump_if E (member_is_cacheable E st.props k)
              (record st { props = record st.props { hash = t } }) in
          record {
            state = record {
              props = invalidate_bounds E st'.props;
              threaded = forget E k st'.threaded;
            };
            success = true;
          })
  ]

  unfoldable pub delete : (got : Bool) → State E → Offset → Deleted
  unfolding coerce delete_member
  delete false st key = record { state = st; success = false }
  delete true st key = delete_member (coerce E key).0 st

  -- The value that the local table has for the member, if it may be handed out.
  unfoldable pub cached_value : Key → Connection E → Option Zval
  cached_value k c = elim c.properties [
    | none ↦ none
    | some t ↦ elim (E.L.find t k) [ none ↦ none | some indirect ↦ none | some (cached z) ↦ some z ]
  ]

  -- A read from the shared table; `reads` is `type == BP_VAR_R || type == BP_VAR_IS`.
  unfoldable pub read_shared : Thread → (reads : Bool) → Key → State E → Read
  unfolding restore_zval update_local_property
  read_shared th reads k st =
      let z = E.Z.find st.props.hash k in
      if not (is_object z) && not reads
      then record { state = st; value = none; thrown = true }
      else elim z [
        | none ↦ record { state = st; value = none; thrown = false }
        | some z ↦
            (let v = restore_zval th z in
              record {
                state = record st { threaded = update_local_property E k v st.threaded };
                value = some v;
                thrown = false;
              })
      ]

  abbrev pub sync_if_any : Thread → State E → State E
  sync_if_any th st = if is_some st.threaded.properties then sync_local_properties E th st else st

  unfoldable pub read : Thread → (got : Bool) → State E → Offset → (reads : Bool) → Read
  unfolding coerce sync_local_properties cached_value read_shared
  read th false st key reads = record { state = st; value = none; thrown = false }
  read th true st key reads =
      let k = (coerce E key).0 in
      let st' = sync_if_any th st in
      elim (cached_value k st'.threaded) [
        | some z ↦ record { state = st'; value = some z; thrown = false }
        | none ↦ read_shared th reads k st'
      ]

  -- The key of an append, or that of the member; ZEND_LONG_MIN as 64 bits is 2 ^ 63.
  unfoldable pub member_of : Store E → Option Offset → Key
  unfolding coerce
  member_of s none =
      let next = E.Z.next_free s.hash in Key.index (if next == 2 ^ 63 then 0 else next)
  member_of s (some key) = (coerce E key).0

  -- The bounds after a write: dropped where a bucket may have moved to the start, dropped after a
  -- write to a key, and moved forward at the end by an append.
  unfoldable pub rehash_bounds : Store E → Store E
  unfolding invalidate_bounds
  rehash_bounds s =
      if not (s.first == invalid_idx) && not (s.first == 0) && is_some (E.Z.current s.hash 0)
      then invalidate_bounds E s
      else s

  unfoldable pub written_bounds : Option Offset → Store E → Store E × Bool
  unfolding invalidate_bounds
  written_bounds (some key) s = (invalidate_bounds E s, false)
  written_bounds none s =
      if s.last == invalid_idx then (s, false) else elim (E.Z.forward s.hash s.last) [
        | none ↦ (s, true)
        | some p ↦ (record s { last = p }, false)
      ]

  -- What a write does with the storage made for the value, under the lock and after it.
  unfoldable pub write_storage : Thread → State E → Option Offset → Zval → Storage → Written
  unfolding member_of member_is_cacheable update_shared_property bump_modcount rehash_bounds
      written_bounds sync_local_properties update_local_property
  write_storage th st key v z =
      let k = member_of st.props key in
      let st1 =
        bump_if E (member_is_cacheable E st.props k)
          (record st { props = update_shared_property E k z st.props }) in
      let bounds = written_bounds key (rehash_bounds st1.props) in
      let st2 = sync_local_properties E th (record st1 { props = bounds.0 }) in
      record {
        state = record st2 { threaded = update_local_property E k v st2.threaded };
        success = true;
        asserted = bounds.1;
      }

  -- `v` is the value once an array has been coerced; `none` for the key appends.
  unfoldable pub write : Thread → (got : Bool) → State E → Option Offset → Zval → Written
  unfolding save_zval write_storage
  write th got st key v = elim (save_zval th st.threaded.owner v) [
    | none ↦ record { state = st; success = false; asserted = false }
    | some z ↦
        if got
        then write_storage th st key v z
        else record { state = st; success = false; asserted = false }
  ]
