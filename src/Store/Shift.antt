-- ===== src/Store/Shift.antt =====
-- What `shift` and `pop` of src/store.c return and leave.
use ext_pmmpthread.Prelude.{
  ℕ, suc, ◌%◌, ◌≡◌, refl, ap, sym, subst, ◌∙◌, Bool, true, false, some, List, [], ◌∷◌, ◌==◌, arith,
  ◌++◌, length, if◌then◌else◌,
}
use mathlib.Core.List.{append-nil}
use ext_pmmpthread.Zend.Keys.{Key}
use ext_pmmpthread.Zend.Buckets.{entries, holes}
use ext_pmmpthread.Zend.Ends.{length-holes, entries-holes}
use ext_pmmpthread.Zend.Taken.{first_split, last_split}
use ext_pmmpthread.Store.Types.{Storage}
use ext_pmmpthread.Store.Values.{Thread, restore_zval, storage_is_cacheable}
use ext_pmmpthread.Store.State.{
  Engine, Store, Connection, State, invalidate_bounds, bump_if, bump_modcount, mod_width, forget,
}
use ext_pmmpthread.Store.Take.{
  hash_del, first_position, last_position, shift_bounds, pop_bounds, drop_member, Taken, shift, pop,
}
use ext_pmmpthread.Store.Bounds.{slots_of, IsBounded, hash_del-Deletes, hash_del-entries}
use ext_pmmpthread.Store.Ends.{first_position_lem, last_position_lem, current_at}
use ext_pmmpthread.Store.Takes.{shift_props, pop_props}

-- The element is handed out and gone from both tables, `es` are left, the positions are right, and
-- the store counts a modification exactly when the element may be cached by some connection.
pub record Takes (E : Engine) (th : Thread) (st : State E) (k : Key) (z : Storage)
    (es : List (Key × Storage)) (r : Taken E) : Type 0 where
  pub value : r.value ≡ some (restore_zval th z)
  pub rest : entries (slots_of E r.state.props) ≡ es
  pub bounded : IsBounded E r.state.props
  pub modcount :
      r.state.props.modcount
      ≡ (if storage_is_cacheable z then suc st.props.modcount % mod_width else st.props.modcount)
  pub properties : r.state.threaded.properties ≡ (forget E k st.threaded).properties

module _ (E : Engine) where
  same_properties :
      (c : Bool) (t : Connection E) (n : ℕ)
      → (if c then record t { local_props_modcount = n } else t).properties ≡ t.properties
  same_properties true t n = refl
  same_properties false t n = refl

  pub shift_bounds-hash : (p : ℕ) (s : Store E) → (shift_bounds E p s).hash ≡ s.hash
  unfolding shift_bounds invalidate_bounds
  shift_bounds-hash p s = ground arith

  shift_bounds-modcount : (p : ℕ) (s : Store E) → (shift_bounds E p s).modcount ≡ s.modcount
  unfolding shift_bounds invalidate_bounds
  shift_bounds-modcount p s = ground arith

  pop_bounds-hash : (p : ℕ) (s : Store E) → (pop_bounds E p s).hash ≡ s.hash
  unfolding pop_bounds invalidate_bounds
  pop_bounds-hash p s = ground arith

  pop_bounds-modcount : (p : ℕ) (s : Store E) → (pop_bounds E p s).modcount ≡ s.modcount
  unfolding pop_bounds invalidate_bounds
  pop_bounds-modcount p s = ground arith

  taken-Takes :
      (c : Bool) (th : Thread) (st st' : State E) (k : Key) (z : Storage)
      (es : List (Key × Storage))
      → storage_is_cacheable z ≡ c
      → entries (slots_of E st'.props) ≡ es
      → IsBounded E st'.props
      → st'.props.modcount ≡ st.props.modcount
      → st'.threaded.properties ≡ (forget E k st.threaded).properties
      → Takes E th st k z es (record { state = bump_if E c st'; value = some (restore_zval th z) })
  unfolding bump_modcount
  taken-Takes true th st st' k z es c r b m p = record {
    value = refl;
    rest = r;
    bounded = record { bounds = b.bounds; room = b.room };
    modcount = rw (c, m);
    properties =
        same_properties (st'.threaded.local_props_modcount == st'.props.modcount) st'.threaded _
        ∙ p;
  }
  taken-Takes false th st st' k z es c r b m p = record {
    value = refl;
    rest = r;
    bounded = b;
    modcount = rw (c, m);
    properties = p;
  }

  -- `shift` on a store with elements takes the first: it returns its value, leaves the others in
  -- order and the cached positions right, and counts a modification exactly when the element may be
  -- cached, given that the cached positions were right and that the positions fit 32 bits.
  pub shift-Takes :
      (th : Thread) (st : State E) (k : Key) (z : Storage) (es : List (Key × Storage))
      → IsBounded E st.props
      → entries (slots_of E st.props) ≡ (k, z) ∷ es
      → Takes E th st k z es (shift E th true st)
  unfolding shift drop_member
  shift-Takes th st k z es b h =
      let (n, post, s, r) = first_split (slots_of E st.props) (k, z) es h in
      let p : first_position E st.props ≡ n = first_position_lem E st.props n (k, z) post s b in
      let cur : E.Z.current st.props.hash (first_position E st.props) ≡ some (k, z) =
        subst (λ m. E.Z.current st.props.hash m ≡ some (k, z)) (length-holes Storage n ∙ sym p)
          (current_at E st.props.hash (k, z) (holes n) post s) in
      let gone = hash_del-Deletes E st.props.hash (holes n) k z post s in
      let same = shift_bounds-hash (first_position E st.props) st.props in
      let st' =
        drop_member E k
          (record st { props = shift_bounds E (first_position E st.props) st.props }) in
      rw (cur, shift)
        (taken-Takes (storage_is_cacheable z) th st st' k z es refl
          (ap (λ t. entries (E.Z.slots (hash_del E t k))) same
            ∙ hash_del-entries E (hash_del E st.props.hash k) (holes n) post gone
            ∙ ap (λ u. u ++ entries post) (entries-holes Storage n)
            ∙ r)
          (subst
            (λ t. IsBounded E (record (shift_bounds E (first_position E st.props) st.props) {
              hash = hash_del E t k;
            }))
            (sym same)
            (subst
              (λ m.
                IsBounded E
                  (record (shift_bounds E m st.props) { hash = hash_del E st.props.hash k }))
              (sym p) (shift_props E st.props n k z post es s r b)))
          (shift_bounds-modcount (first_position E st.props) st.props) refl)

  -- `pop` on a store with elements takes the last: it returns its value, leaves the others in order
  -- and the cached positions right, and counts a modification exactly when the element may be
  -- cached, given that the cached positions were right and that the positions fit 32 bits.
  pub pop-Takes :
      (th : Thread) (st : State E) (k : Key) (z : Storage) (es : List (Key × Storage))
      → IsBounded E st.props
      → entries (slots_of E st.props) ≡ es ++ (k, z) ∷ []
      → Takes E th st k z es (pop E th true st)
  unfolding pop drop_member
  pop-Takes th st k z es b h =
      let (pre, n, s, r) = last_split (slots_of E st.props) (k, z) es h in
      let p : last_position E st.props ≡ length pre =
        last_position_lem E st.props n (k, z) pre s b in
      let cur : E.Z.current st.props.hash (last_position E st.props) ≡ some (k, z) =
        subst (λ m. E.Z.current st.props.hash m ≡ some (k, z)) (sym p)
          (current_at E st.props.hash (k, z) pre (holes n) s) in
      let gone = hash_del-Deletes E st.props.hash pre k z (holes n) s in
      let same = pop_bounds-hash (last_position E st.props) st.props in
      let st' =
        drop_member E k (record st { props = pop_bounds E (last_position E st.props) st.props }) in
      rw (cur, pop)
        (taken-Takes (storage_is_cacheable z) th st st' k z es refl
          (ap (λ t. entries (E.Z.slots (hash_del E t k))) same
            ∙ hash_del-entries E (hash_del E st.props.hash k) pre (holes n) gone
            ∙ ap (λ u. entries pre ++ u) (entries-holes Storage n)
            ∙ append-nil (entries pre)
            ∙ r)
          (subst
            (λ t.
              IsBounded E (record (pop_bounds E (last_position E st.props) st.props) {
                hash = hash_del E t k;
              }))
            (sym same)
            (subst
              (λ m.
                IsBounded E
                  (record (pop_bounds E m st.props) { hash = hash_del E st.props.hash k }))
              (sym p) (pop_props E st.props n k z pre es s r b)))
          (pop_bounds-modcount (last_position E st.props) st.props) refl)
