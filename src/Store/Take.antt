-- ===== src/Store/Take.antt =====
-- src/store.c: taking the first member, the last one, or a chunk of them. `got` is what
-- `pmmpthread_monitor_lock` returned.
use ext_pmmpthread.Prelude.{
  ℕ, zero, suc, Bool, true, false, ◌||◌, Option, none, some, ◌==◌, ltb, if◌then◌else◌,
}
use ext_pmmpthread.Zend.{invalid_idx}
use ext_pmmpthread.Zend.Keys.{Key}
use ext_pmmpthread.Store.Types.{Zval}
use ext_pmmpthread.Store.Values.{Thread, again, restore_zval, storage_is_cacheable}
use ext_pmmpthread.Store.State.{
  cached, Engine, Store, State, invalidate_bounds, bump_modcount, bump_if, forget,
}

module _ (E : Engine) where
  abbrev pub hash_del : E.Z.Table → Key → E.Z.Table
  hash_del t k = elim (E.Z.del t k) [ none ↦ t | some t' ↦ t' ]

  -- `first`, or the position of the first element.
  unfoldable pub first_position : Store E → ℕ
  first_position s = if s.first == invalid_idx then E.Z.reset s.hash else s.first

  unfoldable pub last_position : Store E → ℕ
  last_position s = if s.last == invalid_idx then E.Z.end s.hash else s.last

  -- Where a move fails the position stays.
  abbrev pub moved : ℕ → Option ℕ → ℕ
  moved p none = p
  moved p (some q) = q

  -- The bounds that `shift` leaves when it takes the element at the position.
  unfoldable pub shift_bounds : ℕ → Store E → Store E
  unfolding invalidate_bounds
  shift_bounds p s =
      if E.Z.num_elements s.hash == 1
      then invalidate_bounds E s
      else record s { first = moved p (E.Z.forward s.hash p) }

  unfoldable pub pop_bounds : ℕ → Store E → Store E
  unfolding invalidate_bounds
  pop_bounds p s =
      if E.Z.num_elements s.hash == 1
      then invalidate_bounds E s
      else record s { last = moved p (E.Z.backward s.hash p) }

  -- Both tables lose the key.
  unfoldable pub drop_member : Key → State E → State E
  drop_member k st = record {
    props = record st.props { hash = hash_del st.props.hash k };
    threaded = forget E k st.threaded;
  }

  -- The value, `none` where FAILURE is returned.
  pub record Taken : Type 0 where
    pub state : State E
    pub value : Option Zval

  unfoldable pub shift : Thread → (got : Bool) → State E → Taken
  unfolding first_position shift_bounds drop_member restore_zval storage_is_cacheable bump_modcount
  shift th false st = record { state = st; value = none }
  shift th true st =
      let p = first_position st.props in
      elim (E.Z.current st.props.hash p) [
        | none ↦ record { state = st; value = some Zval.null }
        | some (k, z) ↦ record {
          state =
              bump_if E (storage_is_cacheable z)
                (drop_member k (record st { props = shift_bounds p st.props }));
          value = some (restore_zval th z);
        }
      ]

  unfoldable pub pop : Thread → (got : Bool) → State E → Taken
  unfolding last_position pop_bounds drop_member restore_zval storage_is_cacheable bump_modcount
  pop th false st = record { state = st; value = none }
  pop th true st =
      let p = last_position st.props in
      elim (E.Z.current st.props.hash p) [
        | none ↦ record { state = st; value = some Zval.null }
        | some (k, z) ↦ record {
          state =
              bump_if E (storage_is_cacheable z)
                (drop_member k (record st { props = pop_bounds p st.props }));
          value = some (restore_zval th z);
        }
      ]

  -- A round of the loop of `chunk`: the store, the array made so far, and `stale_local_cache`.
  pub record Chunk : Type 0 where
    pub state : State E
    pub chunk : E.L.Table
    pub stale : Bool

  -- The loop from a position; `none` where the fuel ran out.
  unfoldable pub chunk_loop : ℕ → Thread → (size : ℕ) → ℕ → Chunk → Option Chunk
  unfolding shift_bounds drop_member restore_zval storage_is_cacheable
  chunk_loop zero th size p c = none
  chunk_loop (suc n) th size p c = elim (ltb (E.L.num_elements c.chunk) size) [
    | false ↦ some c
    | true ↦ elim (E.Z.current c.state.props.hash p) [
      | none ↦ some c
      | some (k, z) ↦
          (let props = shift_bounds p c.state.props in
            chunk_loop n (again th) size
              (if E.Z.num_elements c.state.props.hash == 1
                then p
                else moved p (E.Z.forward c.state.props.hash p))
              (record {
                state = drop_member k (record c.state { props = props });
                chunk = E.L.update c.chunk k (cached (restore_zval th z));
                stale = c.stale || storage_is_cacheable z;
              }))
    ]
  ]

  -- A round for each element, and one in which the loop ends. A size below 0 is taken as 0.
  unfoldable pub chunk : Thread → (got : Bool) → State E → (size : ℕ) → Option (State E × E.L.Table)
  unfolding first_position chunk_loop bump_modcount
  chunk th false st size = none
  chunk th true st size =
      elim (chunk_loop (suc (E.Z.num_elements st.props.hash)) th size (first_position st.props)
        (record { state = st; chunk = E.L.init; stale = false })) [
          | none ↦ none
          | some c ↦ some (bump_if E c.stale c.state, c.chunk)
        ]
