-- ===== src/Store/Deletion.antt =====
-- Deleting a member in src/store.c keeps every connection's local properties coherent.
use ext_pmmpthread.Prelude.{
  suc, ◌<◌, ◌≡◌, refl, ap, sym, subst, ◌∙◌, none, some, Option-cases, inl, inr, ◌==◌, if◌then◌else◌,
  false,
}
use ext_pmmpthread.Zend.Keys.{Key, key_eq}
use ext_pmmpthread.Zend.Buckets.{lookup}
use ext_pmmpthread.Store.Types.{Storage}
use ext_pmmpthread.Store.Values.{storage_is_cacheable}
use ext_pmmpthread.Store.State.{
  Engine, Store, Connection, State, mod_width, member_is_cacheable, invalidate_bounds,
}
use ext_pmmpthread.Store.Access.{delete_member}
use ext_pmmpthread.Store.Bounds.{slots_of}
use ext_pmmpthread.Store.Coherence.{
  Standing, OnlyCacheable, InSync, counted, other_lem, own_lem, deleted_state, found_after,
}

module _ (E : Engine) where
  cacheable_lem :
      (s : Store E) (k : Key) (z : Storage)
      → lookup k (slots_of E s) ≡ some z
      → member_is_cacheable E s k ≡ storage_is_cacheable z
  unfolding member_is_cacheable
  cacheable_lem s k z h =
      ap (λ o. elim o [ none ↦ false | some x ↦ storage_is_cacheable x ])
        (E.Z.find-lookup s.hash k ∙ h)

  absent_state :
      (k : Key) (st : State E)
      → E.Z.del st.props.hash k ≡ none
      → (delete_member E k st).state
        ≡ record { props = counted E false st.props.hash st.props; threaded = st.threaded }
  unfolding delete_member invalidate_bounds
  absent_state k st d = rw (d, delete_member) refl

  unchanged :
      (R : Standing) (s : Store E) (c : Connection E)
      → InSync E R s c
      → InSync E R (counted E false s.hash s) c
  unchanged R s c ok = record { coherent = ok.coherent; behind = ok.behind }

  -- Deleting a member, through whichever connection, keeps both that connection and every other one
  -- in step: where its count is that of the store, a connection caches only values that stand for
  -- what the store holds, whatever each takes that to mean, as long as the other has no value stand
  -- for an element that may not be cached; and its count is not ahead of the store's, or is the -1
  -- that a new connection to a store without modifications starts with. Both are so before and
  -- after. The store has counted fewer than 2 ^ 64 - 2 modifications.
  pub delete-InSync :
      (R S : Standing) (k : Key) (st : State E) (c : Connection E)
      → OnlyCacheable S
      → suc (suc st.props.modcount) < mod_width
      → InSync E R st.props st.threaded
      → InSync E S st.props c
      → let r = (delete_member E k st).state in InSync E R r.props r.threaded × InSync E S r.props c
  delete-InSync R S k st c only room mine theirs =
      elim (Option-cases (lookup k (slots_of E st.props))) [
        | inl gone ↦
            subst (λ r. InSync E R r.props r.threaded × InSync E S r.props c)
              (sym (absent_state k st (E.Z.del_absent st.props.hash k gone)))
              (unchanged R st.props st.threaded mine, unchanged S st.props c theirs)
        | inr (z, there) ↦
            (let (t, d, (n, s)) = E.Z.del_present st.props.hash k z there in
              let b = storage_is_cacheable z in
              let in_step = st.threaded.local_props_modcount == st.props.modcount in
              let left : (j : Key)
                  → lookup j (E.Z.slots t)
                    ≡ (if key_eq k j then none else lookup j (slots_of E st.props)) =
                λ j. found_after E.Z st.props.hash t k j n s in
              subst (λ r. InSync E R r.props r.threaded × InSync E S r.props c)
                (sym (deleted_state E b in_step k st t d (cacheable_lem st.props k z there) refl))
                (
                  own_lem E b in_step R st.props t k st.threaded refl left room mine,
                  other_lem E b S st.props t k z c only refl there left room theirs,
                ))
      ]
