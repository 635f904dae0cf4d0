-- ===== src/Store/Walk.antt =====
-- src/store.c: the iteration helpers. A call takes the iterator's position and returns the new one;
-- `got` is what `pmmpthread_monitor_lock`
-- returned; `key` and `data_at` are what happens under the lock.
use ext_pmmpthread.Prelude.{ℕ, Bool, true, false, Option, none, some, ◌==◌, if◌then◌else◌, is_some}
use ext_pmmpthread.Zend.{invalid_idx}
use ext_pmmpthread.Zend.Keys.{Key}
use ext_pmmpthread.Store.Values.{Thread}
use ext_pmmpthread.Store.State.{Engine, Store, State}
use ext_pmmpthread.Store.Access.{Read, read}
use ext_pmmpthread.Store.Take.{moved}
use ext_pmmpthread.Store.Whole.{offset_of}

module _ (E : Engine) where
  unfoldable pub reset : (got : Bool) → Store E → ℕ → Store E × ℕ
  reset false s position = (s, position)
  reset true s position =
      if s.first == invalid_idx
      then (if is_some (E.Z.current s.hash (E.Z.reset s.hash))
          then (record s { first = E.Z.reset s.hash }, E.Z.reset s.hash)
          else (s, invalid_idx))
      else (s, s.first)

  -- The key at the position; `none` is NULL.
  unfoldable pub key : Store E → ℕ → Option Key
  key s position = elim (E.Z.current s.hash position) [ none ↦ none | some (k, z) ↦ some k ]

  -- A read of the element at the position. There is none past the end, where `key` is NULL.
  unfoldable pub data_at : Thread → State E → ℕ → Option (Read E)
  unfolding key read
  data_at th st position = elim (key st.props position) [
    | none ↦ none
    | some k ↦ some (read E th true st (offset_of E k) true)
  ]

  unfoldable pub forward : (got : Bool) → Store E → ℕ → ℕ
  forward false s position = position
  forward true s position =
      let p = moved E position (E.Z.forward s.hash position) in
      if is_some (E.Z.current s.hash p) then p else invalid_idx
