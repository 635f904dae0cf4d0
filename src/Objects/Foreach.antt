-- ===== src/Objects/Foreach.antt =====
-- A loop over a thread-safe object with the iterator of src/object.c.
use ext_pmmpthread.Prelude.{
  ℕ, zero, suc, ◌+◌, ◌<◌, ◌≡◌, ◌≢◌, refl, sym, ◌∙◌, ap, true, Option, none, some, List, [], ◌∷◌,
  ◌++◌, length, length-append, map, ltb, not, ◌==◌, ==_ne, if◌then◌else◌, is_some, inl, inr, arith,
}
use mathlib.Core.List.{append_assoc}
use ext_pmmpthread.Zend.{invalid_idx}
use ext_pmmpthread.Zend.Keys.{Key}
use ext_pmmpthread.Zend.Buckets.{Slots, entries, holes, live_from, bucket_at, forward_from}
use ext_pmmpthread.Zend.Ends.{
  first_view, length-holes, entries-holes, entries-append, live_from-holes, live_from_at,
  live_from_after, bucket_at-append, live_from-le, bucket_at-beyond, live_from-empty,
}
use ext_pmmpthread.Store.Types.{Storage}
use ext_pmmpthread.Store.State.{Engine, State}
use ext_pmmpthread.Store.Bounds.{slots_of}
use ext_pmmpthread.Store.Take.{moved}
use ext_pmmpthread.Store.Walk.{key, forward}
use ext_pmmpthread.Objects.Iterator.{
  Iterator, iterator_validate, iterator_current_key, iterator_move_forward,
}

module _ {V : Type 0} where
  -- The keys of the entries, as the iterator gives them.
  abbrev pub keys_of : List (Key × V) → List (Option Key)
  keys_of es = map (λ e. some e.0) es

module _ (E : Engine) where
  -- The keys of a loop of at most so many rounds.
  abbrev pub visit : ℕ → State E → Iterator → List (Option Key)
  visit zero st it = []
  visit (suc k) st it =
      let rest = visit k st (iterator_move_forward E true st it) in
      if iterator_validate it then iterator_current_key E st it ∷ rest else []

  module _ (st : State E) (room : length (slots_of E st.props) < invalid_idx) where
    abbrev here : Slots Storage
    here = slots_of E st.props

    pub current_at :
        (pre : Slots Storage) (e : Key × Storage) (post : Slots Storage)
        → here ≡ pre ++ some e ∷ post
        → E.Z.current st.props.hash (length pre) ≡ some e
    current_at pre e post h =
        E.Z.current-bucket_at st.props.hash (length pre)
        ∙ ap (λ s. bucket_at s (live_from s (length pre))) h
        ∙ ap (bucket_at (pre ++ some e ∷ post)) (live_from_at pre e post)
        ∙ bucket_at-append pre (some e) post

    moved_next :
        (pre : Slots Storage) (e : Key × Storage) (post : Slots Storage)
        → here ≡ pre ++ some e ∷ post
        → moved E (length pre) (E.Z.forward st.props.hash (length pre))
          ≡ suc (length pre) + live_from post 0
    moved_next pre e post h =
        let s = pre ++ some e ∷ post in
        let inside : ltb (length pre) (length s) ≡ true =
          ground (arith, length-append pre (some e ∷ post)) in
        ap (moved E (length pre)) (E.Z.forward-forward_from st.props.hash (length pre))
        ∙ ap (λ s. moved E (length pre) (forward_from s (length pre))) h
        ∙ ap
            (λ q.
              moved E (length pre) (if ltb q (length s) then some (live_from s (suc q)) else none))
            (live_from_at pre e post)
        ∙ ap (λ b. moved E (length pre) (if b then some (live_from s (suc (length pre))) else none))
            inside
        ∙ live_from_after pre (some e) post

    -- Where a step forward leads.
    abbrev settled : ℕ → ℕ
    settled p = if is_some (E.Z.current st.props.hash p) then p else invalid_idx

    pub forward-last :
        (pre : Slots Storage) (e : Key × Storage) (post : Slots Storage)
        → here ≡ pre ++ some e ∷ post
        → entries post ≡ []
        → forward E true st.props (length pre) ≡ invalid_idx
    unfolding forward
    forward-last pre e post h none_after =
        let q = suc (length pre) + live_from post 0 in
        let len : length here ≡ q =
          ap length h
          ∙ omega (arith, length-append pre (some e ∷ post), live_from-empty post none_after) in
        let gone : E.Z.current st.props.hash q ≡ none =
          E.Z.current-bucket_at st.props.hash q
          ∙ bucket_at-beyond here (live_from here q) (omega (arith, len, live_from-le here q)) in
        ap settled (moved_next pre e post h) ∙ ap (λ o. if is_some o then q else invalid_idx) gone

    pub forward-next :
        (pre : Slots Storage) (e : Key × Storage) (n : ℕ) (d : Key × Storage) (post : Slots Storage)
        → here ≡ pre ++ some e ∷ (holes n ++ some d ∷ post)
        → forward E true st.props (length pre) ≡ length (pre ++ some e ∷ holes n)
    unfolding forward
    forward-next pre e n d post h =
        let before = pre ++ some e ∷ holes n in
        let there : suc (length pre) + live_from (holes n ++ some d ∷ post) 0 ≡ length before =
          omega (
            arith,
            live_from-holes n d post,
            length-append pre (some e ∷ holes n),
            length-holes Storage n,
          ) in
        ap settled (moved_next pre e (holes n ++ some d ∷ post) h ∙ there)
        ∙ ap (λ o. if is_some o then length before else invalid_idx)
            (current_at before d post
              (h ∙ sym (append_assoc pre (some e ∷ holes n) (some d ∷ post))))

    abbrev next_of : Iterator → Iterator
    next_of it = iterator_move_forward E true st it

    visit_one :
        (fuel : ℕ) (it : Iterator) (pre : Slots Storage) (e : Key × Storage) (post : Slots Storage)
        → it.position ≡ length pre
        → here ≡ pre ++ some e ∷ post
        → visit (suc fuel) st it ≡ some e.0 ∷ visit fuel st (next_of it)
    unfolding iterator_validate iterator_current_key key
    visit_one fuel it pre e post at h =
        let inside : it.position ≢ invalid_idx =
          λ q. omega (arith, at, q, room, ap length h, length-append pre (some e ∷ post)) in
        let valid : iterator_validate it ≡ true = ap not (==_ne inside) in
        let name : iterator_current_key E st it ≡ some e.0 =
          ap (λ o. elim o as (λ _. Option Key) [ none ↦ none | some (k, z) ↦ some k ])
            (ap (E.Z.current st.props.hash) at ∙ current_at pre e post h) in
        ap (λ b. if b then iterator_current_key E st it ∷ visit fuel st (next_of it) else []) valid
        ∙ ap (◌∷ visit fuel st (next_of it)) name

    visit_end : (fuel : ℕ) (it : Iterator) → it.position ≡ invalid_idx → visit (suc fuel) st it ≡ []
    unfolding iterator_validate
    visit_end fuel it at =
        ap (λ b. if not b then iterator_current_key E st it ∷ visit fuel st (next_of it) else [])
          (ap (◌== invalid_idx) at)

    next_position : (it : Iterator) → (next_of it).position ≡ forward E true st.props it.position
    unfolding iterator_move_forward
    next_position it = refl

    pub visit_from :
        (fuel : ℕ) (it : Iterator) (pre : Slots Storage) (e : Key × Storage) (post : Slots Storage)
        → it.position ≡ length pre
        → here ≡ pre ++ some e ∷ post
        → length (entries post) < fuel
        → visit (suc fuel) st it ≡ keys_of (e ∷ entries post)
    visit_from zero it pre e post at h l = absurd (omega arith)
    visit_from (suc fuel) it pre e post at h l =
        let moves = next_position it ∙ ap (forward E true st.props) at in
        visit_one (suc fuel) it pre e post at h
        ∙ ap (some e.0 ∷◌) (elim (first_view post) [
          | inl no_more ↦
              visit_end fuel (next_of it) (moves ∙ forward-last pre e post h no_more)
              ∙ sym (ap keys_of no_more)
          | inr (n, d, post', q) ↦
              let h' : here ≡ pre ++ some e ∷ (holes n ++ some d ∷ post') =
                h ∙ ap (λ r. pre ++ some e ∷ r) q in
              let left : entries post ≡ d ∷ entries post' =
                ap entries q
                ∙ entries-append (holes n) (some d ∷ post')
                ∙ ap (◌++ (d ∷ entries post')) (entries-holes Storage n) in
              visit_from fuel (next_of it) (pre ++ some e ∷ holes n) d post'
                (moves ∙ forward-next pre e n d post' h')
                (h' ∙ sym (append_assoc pre (some e ∷ holes n) (some d ∷ post')))
                (omega (arith, l, ap length left))
              ∙ sym (ap keys_of left)
        ])
