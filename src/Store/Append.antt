-- ===== src/Store/Append.antt =====
-- An append in src/store.c while the position of the last element is cached.
use ext_pmmpthread.Prelude.{
  ℕ, zero, suc, ◌<◌, ◌≤◌, ◌≡◌, ◌≢◌, refl, ap, sym, subst, ◌∙◌, ◌⊎◌, inl, inr, Bool, true, false,
  not, ltb, is_some, Option, none, some, ◌==◌, ==_ne, [], ◌∷◌, ◌++◌, length, length-append,
  length-map, arith,
}
use ext_pmmpthread.Zend.{invalid_idx}
use ext_pmmpthread.Zend.Keys.{Key}
use ext_pmmpthread.Zend.Buckets.{Slots, entries, compact, live_from, bucket_at}
use ext_pmmpthread.Zend.Ends.{entries-append}
use ext_pmmpthread.Store.Types.{Zval, Storage}
use ext_pmmpthread.Store.Values.{Thread, save_zval}
use ext_pmmpthread.Store.State.{
  Engine, Store, State, bump_if, bump_modcount, sync_local_properties, update_shared_property,
  member_is_cacheable,
}
use ext_pmmpthread.Store.Access.{write, write_storage, member_of, rehash_bounds, written_bounds}
use ext_pmmpthread.Store.Take.{last_position, pop, moved}
use ext_pmmpthread.Store.Bounds.{slots_of}
use ext_pmmpthread.Store.Ends.{forward_at}

module _ {V : Type 0} where
  live_from_past : (s : Slots V) (p : ℕ) → length s ≤ p → live_from s p ≡ p
  live_from_past [] p h = refl
  live_from_past (b ∷ s) zero h = absurd (omega arith)
  live_from_past (none ∷ s) (suc p) h = ap suc (live_from_past s p (omega arith))
  live_from_past (some e ∷ s) (suc p) h = ap suc (live_from_past s p (omega arith))

  bucket_at_past : (s : Slots V) (p : ℕ) → length s ≤ p → bucket_at s p ≡ none
  bucket_at_past [] p h = refl
  bucket_at_past (b ∷ s) zero h = absurd (omega arith)
  bucket_at_past (b ∷ s) (suc p) h = bucket_at_past s p (omega arith)

  compact-entries : (s : Slots V) → entries (compact s) ≡ entries s
  compact-entries [] = refl
  compact-entries (none ∷ s) = compact-entries s
  compact-entries (some e ∷ s) = ap (◌∷◌ e) (compact-entries s)

module _ (E : Engine) where
  -- What is left of a cached position `p` at or past the element that was appended.
  abbrev Lost : (t : E.Z.Table) (c : Slots Storage) (p : ℕ) → Type 0
  Lost t c p =
      (length (E.Z.slots t) ≤ moved E p (E.Z.forward t p))
      × (moved E p (E.Z.forward t p) ≤ suc p)
      × (not (is_some (E.Z.forward t p)) ≡ ltb (length c) p)

  forward-Lost :
      (t : E.Z.Table) (c : Slots Storage) (e : Key × Storage) (p : ℕ)
      → E.Z.slots t ≡ c ++ some e ∷ []
      → length c ≤ p
      → Lost t c p
  forward-Lost t c e p h l = elim (tight_or_not) [
    | inl q ↦
        (let f : E.Z.forward t p ≡ some (live_from (c ++ some e ∷ []) (suc p)) =
            subst (λ m. E.Z.forward t m ≡ some (live_from (c ++ some e ∷ []) (suc m))) q
              (forward_at E t e c [] h) in
          let past =
            live_from_past (c ++ some e ∷ []) (suc p)
              (omega (arith, q, length-append c (some e ∷ []))) in
          rw (f, past)
            (
              omega (arith, q, ap length h, length-append c (some e ∷ [])),
              omega arith,
              ground (arith, q),
            ))
    | inr q ↦
        (let far : length (E.Z.slots t) ≤ p =
            omega (arith, q, ap length h, length-append c (some e ∷ [])) in
          let f : E.Z.forward t p ≡ none =
            E.Z.forward-forward_from t p ∙ ground (arith, live_from_past (E.Z.slots t) p far) in
          rw f ((far, omega arith, ground (arith, q))))
  ]
    where
      tight_or_not : (length c ≡ p) ⊎ (length c < p)
      tight_or_not = ground arith

  kept_first : (s : Store E) → (s.first ≡ invalid_idx) ⊎ (s.first ≡ 0) → rehash_bounds E s ≡ s
  unfolding rehash_bounds
  kept_first s f = ground arith

  pop_lost :
      (th : Thread) (st : State E)
      → length (slots_of E st.props) ≤ st.props.last
      → st.props.last < invalid_idx
      → (pop E th true st).value ≡ some Zval.null
  unfolding pop last_position
  pop_lost th st l b =
      let ne : (st.props.last == invalid_idx) ≡ false = ground arith in
      let gone : E.Z.current st.props.hash st.props.last ≡ none =
        E.Z.current-bucket_at st.props.hash st.props.last
        ∙ ap (bucket_at (E.Z.slots st.props.hash))
            (live_from_past (slots_of E st.props) st.props.last l)
        ∙ bucket_at_past (slots_of E st.props) st.props.last l in
      rw (ne, gone, pop, last_position) refl

  sync-props : (th : Thread) (st : State E) → (sync_local_properties E th st).props ≡ st.props
  unfolding sync_local_properties
  sync-props th st = ground arith

  -- A modification leaves the table and the cached positions alone.
  record SameTable (r s : Store E) : Type 0 where
    hash : r.hash ≡ s.hash
    first : r.first ≡ s.first
    last : r.last ≡ s.last

  bump-SameTable : (b : Bool) (st : State E) → SameTable (bump_if E b st).props st.props
  unfolding bump_modcount
  bump-SameTable true st = record { hash = refl; first = refl; last = refl }
  bump-SameTable false st = record { hash = refl; first = refl; last = refl }

  -- What the bounds of an append come to while `last` is cached.
  record Moves (s : Store E) (r : Store E × Bool) : Type 0 where
    hash : r.0.hash ≡ s.hash
    last : r.0.last ≡ moved E s.last (E.Z.forward s.hash s.last)
    asserted : r.1 ≡ not (is_some (E.Z.forward s.hash s.last))

  moved-Moves :
      (s : Store E) (o : Option ℕ)
      → E.Z.forward s.hash s.last ≡ o
      → Moves s (elim o as (λ _. Store E × Bool) [
        | none ↦ (s, true)
        | some p ↦ (record s { last = p }, false)
      ])
  moved-Moves s none h = record { hash = refl; last = rw h refl; asserted = rw h refl }
  moved-Moves s (some p) h = record { hash = refl; last = rw h refl; asserted = rw h refl }

  bounds-Moves :
      (s : Store E)
      → (s.first ≡ invalid_idx) ⊎ (s.first ≡ 0)
      → s.last ≢ invalid_idx
      → Moves s (written_bounds E none (rehash_bounds E s))
  unfolding written_bounds
  bounds-Moves s f l =
      subst (λ r. Moves s (written_bounds E none r)) (sym (kept_first s f))
        (rw (==_ne l, written_bounds) (moved-Moves s (E.Z.forward s.hash s.last) refl))

  -- The table and the position of the last element after an append.
  write-Moves :
      (th : Thread) (st : State E) (v : Zval) (z : Storage)
      → save_zval th st.threaded.owner v ≡ some z
      → (st.props.first ≡ invalid_idx) ⊎ (st.props.first ≡ 0)
      → st.props.last ≢ invalid_idx
      → Moves
          (record st.props { hash = E.Z.update st.props.hash (member_of E st.props none) z })
          (let w = write E th true st none v in (w.state.props, w.asserted))
  unfolding write write_storage update_shared_property
  write-Moves th st v z saved f l =
      let k = member_of E st.props none in
      let added : State E = record st { props = update_shared_property E k z st.props } in
      let b = member_is_cacheable E st.props k in
      let same = bump-SameTable b added in
      let s = (bump_if E b added).props in
      let m = bounds-Moves s (rw same.first f) (rw same.last l) in
      rw (saved, sync-props, write)
        (record {
          hash = m.hash ∙ same.hash;
          last = m.last ∙ rw (same.hash, same.last) refl;
          asserted = m.asserted ∙ rw (same.hash, same.last) refl;
        })

  -- An append loses the last element when it makes the engine close the holes of a table whose last
  -- position is cached, and whose first one is not or is 0: the new element is there, at the end,
  -- but the cached position lies past it, and `pop` returns NULL on the table, which is not empty.
  -- With two or more holes before the last element, and only then, the write reaches `ZEND_ASSERT(0)`:
  -- a build with assertions stops there, and the rest is about a build without them.
  pub append-LosesLast :
      (th : Thread) (st : State E) (v : Zval) (z : Storage) (pre : Slots Storage)
      (d : Key × Storage)
      → save_zval th st.threaded.owner v ≡ some z
      → (st.props.first ≡ invalid_idx) ⊎ (st.props.first ≡ 0)
      → slots_of E st.props ≡ pre ++ some d ∷ []
      → st.props.last ≡ length pre
      → suc (length pre) < invalid_idx
      → length (entries pre) < length pre
      → E.Z.slots (E.Z.update st.props.hash (member_of E st.props none) z)
        ≡ compact (slots_of E st.props) ++ some (member_of E st.props none, z) ∷ []
      → let w = (write E th true st none v).state in
        (entries (slots_of E w.props)
          ≡ entries (slots_of E st.props) ++ (member_of E st.props none, z) ∷ [])
        × ((write E th true st none v).asserted ≡ ltb (suc (length (entries pre))) (length pre))
        × ((reader : Thread) → (pop E reader true w).value ≡ some Zval.null)
  append-LosesLast th st v z pre d saved f slots at room hole closed =
      let k = member_of E st.props none in
      let t = E.Z.update st.props.hash k z in
      let c = compact (slots_of E st.props) in
      let w = (write E th true st none v).state in
      let m = write-Moves th st v z saved f (omega (arith, at, room)) in
      let size : length c ≡ suc (length (entries pre)) = omega (
        arith,
        length-map (entries (slots_of E st.props)) some,
        ap (λ u. length (entries u)) slots,
        ap length (entries-append pre (some d ∷ [])),
        length-append (entries pre) (d ∷ []),
      ) in
      let short : length c ≤ st.props.last = omega (arith, at, hole, size) in
      let far = forward-Lost t c (k, z) st.props.last closed short in
      (
        ap (λ u. entries (E.Z.slots u)) m.hash
            ∙ ap entries closed
            ∙ entries-append c (some (k, z) ∷ [])
            ∙ ap (λ es. es ++ (k, z) ∷ []) (compact-entries (slots_of E st.props)),
        m.asserted ∙ far.2 ∙ rw (size, at) refl,
        λ reader.
            pop_lost reader w (omega (arith, far.0, ap (λ u. length (E.Z.slots u)) m.hash, m.last))
              (omega (arith, far.1, m.last, at, room)),
      )
