-- ===== src/Objects/Loop.antt =====
-- A loop over a thread-safe object, from the rewinding of its iterator (src/object.c) to the end.
use ext_pmmpthread.Prelude.{
  ℕ, suc, ◌<◌, ◌≡◌, ◌≢◌, refl, sym, ◌∙◌, ap, subst, true, some, List, ◌∷◌, ◌++◌, length,
  length-append, ◌==◌, ==_ne, if◌then◌else◌, is_some, inl, inr, arith,
}
use ext_pmmpthread.Zend.{invalid_idx}
use ext_pmmpthread.Zend.Keys.{Key}
use ext_pmmpthread.Zend.Buckets.{Slots, entries, holes, live_from}
use ext_pmmpthread.Zend.Ends.{
  first_view, length-holes, entries-holes, entries-append, live_from-holes,
}
use ext_pmmpthread.Store.Types.{Storage}
use ext_pmmpthread.Store.State.{Engine, Store, State}
use ext_pmmpthread.Store.Bounds.{slots_of, IsBounded}
use ext_pmmpthread.Store.Walk.{reset}
use ext_pmmpthread.Objects.Iterator.{Iterator, iterator_rewind, at_reset}
use ext_pmmpthread.Objects.Foreach.{keys_of, visit, current_at, visit_from}

module _ (E : Engine) where
  abbrev found : Store E → Store E × ℕ
  found s =
      if is_some (E.Z.current s.hash (E.Z.reset s.hash))
      then (record s { first = E.Z.reset s.hash }, E.Z.reset s.hash)
      else (s, invalid_idx)

  reset_there :
      (st : State E) (n : ℕ) (d : Key × Storage) (post : Slots Storage)
      → IsBounded E st.props
      → slots_of E st.props ≡ holes n ++ some d ∷ post
      → (position : ℕ)
      → (s' : Store E) × ((reset E true st.props position ≡ (s', n)) × (s'.hash ≡ st.props.hash))
  unfolding reset
  reset_there st n d post ok q position =
      let first : live_from (slots_of E st.props) 0 ≡ n =
        ap (λ s. live_from s 0) q ∙ live_from-holes n d post in
      let start = E.Z.reset-live_from st.props.hash ∙ first in
      elim ok.bounds.first-ok [
        | inl unset ↦
            let there : E.Z.current st.props.hash (E.Z.reset st.props.hash) ≡ some d =
              ap (E.Z.current st.props.hash) (start ∙ sym (length-holes Storage n))
              ∙ current_at E st ok.room (holes n) d post q in
            (
              record st.props { first = E.Z.reset st.props.hash },
              (
                ap (λ b. if b then found st.props else (st.props, st.props.first))
                      (ap (◌== invalid_idx) unset)
                    ∙ ap
                        (λ o.
                          if is_some o
                          then (
                            record st.props { first = E.Z.reset st.props.hash },
                            E.Z.reset st.props.hash,
                          )
                          else (st.props, invalid_idx))
                        there
                    ∙ ap (λ p. (record st.props { first = E.Z.reset st.props.hash }, p)) start,
                refl,
              ),
            )
        | inr set ↦
            let inside : st.props.first ≢ invalid_idx = λ e. omega (
              arith,
              e,
              set,
              first,
              ok.room,
              ap length q,
              length-append (holes n) (some d ∷ post),
              length-holes Storage n,
            ) in
            (
              st.props,
              (
                ap (λ b. if b then found st.props else (st.props, st.props.first)) (==_ne inside)
                    ∙ ap (λ p. (st.props, p)) (set ∙ first),
                refl,
              ),
            )
      ]

  -- A loop over an object with elements visits each once, in the order of the table: after `rewind` the
  -- keys that the iterator gives for as long as it is valid are those of the elements, however many
  -- more rounds are allowed. This is so when the lock is taken, the table is not changed meanwhile, and
  -- the cached positions are right.
  pub foreach_lem :
      (fuel : ℕ) (st : State E) (it : Iterator) (e : Key × Storage) (es : List (Key × Storage))
      → IsBounded E st.props
      → entries (slots_of E st.props) ≡ e ∷ es
      → length es < fuel
      → let (st', it') = iterator_rewind E true st it in
        visit E (suc fuel) st' it' ≡ keys_of (e ∷ es)
  unfolding iterator_rewind
  foreach_lem fuel st it e es ok some_there l = elim (first_view (slots_of E st.props)) [
    | inl nothing ↦ ground (arith, nothing, some_there)
    | inr (n, d, post, q) ↦
        let same : d ∷ entries post ≡ e ∷ es =
          sym (ap (◌++ (d ∷ entries post)) (entries-holes Storage n))
          ∙ sym (entries-append (holes n) (some d ∷ post))
          ∙ sym (ap entries q)
          ∙ some_there in
        let (s', (ran, hash)) = reset_there st n d post ok q it.position in
        let kept = ap E.Z.slots hash in
        subst
          (λ r. visit E (suc fuel) (at_reset E r st it).0 (at_reset E r st it).1 ≡ keys_of (e ∷ es))
          (sym ran)
          (visit_from E (record st { props = s' })
              (subst (λ v. length v < invalid_idx) (sym kept) ok.room) fuel
              (record it { position = n }) (holes n) d post (sym (length-holes Storage n))
              (kept ∙ q) (omega (arith, l, ap length same))
            ∙ ap keys_of same)
  ]
