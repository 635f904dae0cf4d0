-- ===== src/Objects/Iterator.antt =====
-- src/object.c: the iterators of thread-safe objects, over the walk of src/store.c.
use ext_pmmpthread.Prelude.{ℕ, Bool, true, false, not, Option, none, some, List, [], ◌∷◌, ◌==◌}
use ext_pmmpthread.Zend.{invalid_idx}
use ext_pmmpthread.Zend.Keys.{Key}
use ext_pmmpthread.Store.Types.{Zval}
use ext_pmmpthread.Store.Values.{Thread}
use ext_pmmpthread.Store.State.{Engine, Store, State}
use ext_pmmpthread.Store.Access.{Read}
use ext_pmmpthread.Store.Walk.{reset, key, data_at, forward}

-- pmmpthread_iterator_t, with `zit.data` as `current`; the object is the state that a call is given
pub record Iterator : Type 0 where
  pub current : Zval
  pub position : ℕ

-- `true` is SUCCESS.
unfoldable pub iterator_validate : Iterator → Bool
iterator_validate it = not (it.position == invalid_idx)

-- What the collector of cycles is shown.
unfoldable pub iterator_get_gc : Iterator → List Zval
iterator_get_gc it = elim it.current [ Zval.undef ↦ [] | z ↦ z ∷ [] ]

module _ (E : Engine) where
  abbrev pub value_or : Option Zval → Zval
  value_or none = Zval.undef
  value_or (some z) = z

  abbrev pub shown : Zval → Zval
  shown Zval.undef = Zval.null
  shown z = z

  abbrev pub with_read : Option (Read E) → State E → Iterator → Zval × (State E × Iterator)
  with_read none st it = (Zval.null, (st, record it { current = Zval.undef }))
  with_read (some r) st it =
      (shown (value_or r.value), (r.state, record it { current = value_or r.value }))

  -- The value at the position, NULL where there is none; the iterator keeps it.
  unfoldable pub iterator_current_data : Thread → State E → Iterator → Zval × (State E × Iterator)
  unfolding data_at
  iterator_current_data th st it = with_read (data_at E th st it.position) st it

  unfoldable pub iterator_current_key : State E → Iterator → Option Key
  unfolding key
  iterator_current_key st it = key E st.props it.position

  unfoldable pub iterator_move_forward : (got : Bool) → State E → Iterator → Iterator
  unfolding forward
  iterator_move_forward got st it = record it { position = forward E got st.props it.position }

  abbrev pub at_reset : Store E × ℕ → State E → Iterator → State E × Iterator
  at_reset (s, p) st it = (record st { props = s }, record it { position = p })

  unfoldable pub iterator_rewind : (got : Bool) → State E → Iterator → State E × Iterator
  unfolding reset
  iterator_rewind got st it = at_reset (reset E got st.props it.position) st it

  -- A new iterator, or `none` where an exception is thrown.
  unfoldable pub iterator_create : (got by_ref : Bool) → State E → Option (State E × Iterator)
  unfolding reset
  iterator_create got true st = none
  iterator_create got false st =
      some (at_reset (reset E got st.props 0) st (record { current = Zval.undef; position = 0 }))
