-- ===== src/Store/Sync.antt =====
-- A synchronisation of local properties in src/store.c leaves only what still stands for the store.
use ext_pmmpthread.Prelude.{
  ◌≡◌, ◌⊎◌, ◌↔◌, refl, ap, sym, subst, ◌∙◌, Bool, true, false, Bool-cases, inl, inr, Option, none,
  some, List, [], ◌∷◌, map, ◌==◌, ==_iff, if◌then◌else◌, arith,
}
use ext_pmmpthread.Zend.Keys.{Key, key_eq, key_eq_iff}
use ext_pmmpthread.Zend.Buckets.{Slots, Unique, lookup, entries}
use ext_pmmpthread.Zend.Array.{compact-lookup, compact-Unique}
use ext_pmmpthread.Store.Values.{Thread}
use ext_pmmpthread.Store.State.{
  Local, Engine, Store, State, still_cached, local_del, sync_loop, sync_local_properties,
}
use ext_pmmpthread.Store.Bounds.{slots_of}
use ext_pmmpthread.Store.Coherence.{local_slots, StillCached, Coherent, found_forgotten}

module _ (E : Engine) where
  sync_step :
      (b : Bool) (t : E.L.Table) (k j : Key) (l : Local)
      → lookup j (E.L.slots (if b then t else local_del E t k)) ≡ some l
      → lookup j (E.L.slots t) ≡ some l
  sync_step true t k j l h = h
  sync_step false t k j l h = ground (arith, found_forgotten E t k j, h)

  sync_keeps :
      (th : Thread) (s : Store E) (es : List (Key × Local)) (t : E.L.Table) (j : Key) (l : Local)
      → lookup j (E.L.slots (sync_loop E th s es t)) ≡ some l
      → lookup j (E.L.slots t) ≡ some l
  unfolding sync_loop
  sync_keeps th s [] t j l h = h
  sync_keeps th s ((k, m) ∷ es) t j l h =
      sync_step (still_cached th (E.Z.find s.hash k) m) t k j l (sync_keeps th s es _ j l h)

  dropped :
      (b : Bool) (t : E.L.Table) (k j : Key) (l : Local)
      → key_eq k j ≡ true
      → lookup j (E.L.slots (if b then t else local_del E t k)) ≡ some l
      → b ≡ true
  dropped true t k j l e h = refl
  dropped false t k j l e h = ground (arith, found_forgotten E t k j, h, e)

  sync_loop-StillCached :
      (th : Thread) (s : Store E) (es : List (Key × Local)) (t : E.L.Table) (j : Key) (l : Local)
      → lookup j (map some es) ≡ some l
      → lookup j (E.L.slots (sync_loop E th s es t)) ≡ some l
      → still_cached th (E.Z.find s.hash j) l ≡ true
  unfolding sync_loop
  sync_loop-StillCached th s [] t j l i h = ground arith
  sync_loop-StillCached th s ((k, m) ∷ es) t j l i h = elim (Bool-cases (key_eq k j)) [
    | inl same ↦
        (let b = still_cached th (E.Z.find s.hash k) m in
          let stays : b ≡ true = dropped b t k j l same (sync_keeps th s es _ j l h) in
          let value : m ≡ l = ground (arith, i, same) in
          subst (λ x. still_cached th (E.Z.find s.hash x) l ≡ true) ((key_eq_iff k j).0 same)
            (subst (λ x. still_cached th (E.Z.find s.hash k) x ≡ true) value stays))
    | inr apart ↦ sync_loop-StillCached th s es _ j l (ground (arith, i, apart)) h
  ]

  stays :
      (b : Bool) (t : E.L.Table) (k j : Key) (l : Local)
      → (key_eq k j ≡ false) ⊎ (b ≡ true)
      → lookup j (E.L.slots t) ≡ some l
      → lookup j (E.L.slots (if b then t else local_del E t k)) ≡ some l
  stays true t k j l c h = h
  stays false t k j l c h = found_forgotten E t k j ∙ ground (arith, h, c)

  sync_loop-others :
      (th : Thread) (s : Store E) (es : List (Key × Local)) (t : E.L.Table) (j : Key) (l : Local)
      → lookup j (map some es) ≡ none
      → lookup j (E.L.slots t) ≡ some l
      → lookup j (E.L.slots (sync_loop E th s es t)) ≡ some l
  unfolding sync_loop
  sync_loop-others th s [] t j l i h = h
  sync_loop-others th s ((k, m) ∷ es) t j l i h =
      let apart : key_eq k j ≡ false = ground (arith, i) in
      let rest : lookup j (map some es) ≡ none = ground (arith, i, apart) in
      sync_loop-others th s es _ j l rest
        (stays (still_cached th (E.Z.find s.hash k) m) t k j l (inl apart) h)

  -- A value that stands for what the store holds is left alone.
  sync_loop-stays :
      (th : Thread) (s : Store E) (es : List (Key × Local)) (t : E.L.Table) (j : Key) (l : Local)
      → Unique (map some es)
      → lookup j (map some es) ≡ some l
      → still_cached th (E.Z.find s.hash j) l ≡ true
      → lookup j (E.L.slots t) ≡ some l
      → lookup j (E.L.slots (sync_loop E th s es t)) ≡ some l
  unfolding sync_loop
  sync_loop-stays th s [] t j l u i c h = ground arith
  sync_loop-stays th s ((k, m) ∷ es) t j l u i c h = elim (Bool-cases (key_eq k j)) [
    | inl same ↦
        (let key : k ≡ j = (key_eq_iff k j).0 same in
          let value : m ≡ l = ground (arith, i, same) in
          let good : still_cached th (E.Z.find s.hash k) m ≡ true =
            subst (λ x. still_cached th (E.Z.find s.hash x) m ≡ true) (sym key)
              (subst (λ x. still_cached th (E.Z.find s.hash j) x ≡ true) (sym value) c) in
          let rest : lookup j (map some es) ≡ none =
            subst (λ x. lookup x (map some es) ≡ none) key u.0 in
          sync_loop-others th s es _ j l rest
            (stays (still_cached th (E.Z.find s.hash k) m) t k j l (inr good) h))
    | inr apart ↦
        sync_loop-stays th s es _ j l u.1 (ground (arith, i, apart)) c
          (stays (still_cached th (E.Z.find s.hash k) m) t k j l (inl apart) h)
  ]

  found :
      (th : Thread) (st : State E) (k : Key) (l : Local)
      → still_cached th (E.Z.find st.props.hash k) l
        ≡ still_cached th (lookup k (slots_of E st.props)) l
  found th st k l = ap (λ x. still_cached th x l) (E.Z.find-lookup st.props.hash k)

  abbrev cleaned : Thread → State E → Option E.L.Table → Option E.L.Table
  cleaned th st o = elim o as (λ _. Option E.L.Table) [
    | none ↦ none
    | some t ↦ some (sync_loop E th st.props (entries (E.L.slots t)) t)
  ]

  abbrev cached_in : Option E.L.Table → Slots Local
  cached_in o = elim o as (λ _. Slots Local) [ none ↦ [] | some t ↦ E.L.slots t ]

  left_before :
      (th : Thread) (st : State E) (o : Option E.L.Table) (k : Key) (l : Local)
      → lookup k (cached_in (cleaned th st o)) ≡ some l
      → (lookup k (cached_in o) ≡ some l)
        × (still_cached th (lookup k (slots_of E st.props)) l ≡ true)
  left_before th st none k l h = ground arith
  left_before th st (some t) k l h =
      let es = entries (E.L.slots t) in
      let had = sync_keeps th st.props es t k l h in
      (
        had,
        sym (found th st k l)
            ∙ sync_loop-StillCached th st.props es t k l (compact-lookup k (E.L.slots t) ∙ had) h,
      )

  left_after :
      (th : Thread) (st : State E) (o : Option E.L.Table) (k : Key) (l : Local)
      → (lookup k (cached_in o) ≡ some l)
        × (still_cached th (lookup k (slots_of E st.props)) l ≡ true)
      → lookup k (cached_in (cleaned th st o)) ≡ some l
  left_after th st none k l h = ground (arith, h.0)
  left_after th st (some t) k l h =
      sync_loop-stays th st.props (entries (E.L.slots t)) t k l
        (compact-Unique (E.L.slots t) (E.L.unique t)) (compact-lookup k (E.L.slots t) ∙ h.0)
        (found th st k l ∙ h.1) h.0

  -- What a connection caches once it has been synchronised with the store.
  pub record IsSynced (th : Thread) (st r : State E) : Type 0 where
    pub props : r.props ≡ st.props
    pub count : r.threaded.local_props_modcount ≡ st.props.modcount
    pub left :
        (k : Key) (l : Local)
        → lookup k (local_slots E r.threaded) ≡ some l ↔ (
            (lookup k (local_slots E st.threaded) ≡ some l)
            × (still_cached th (lookup k (slots_of E st.props)) l ≡ true))

  -- A synchronisation brings a connection level with the store: the store is unchanged, the count of
  -- the connection becomes that of the store, and its table of local properties is left with exactly
  -- those of the values it had that are, or come from, what the store holds for that member, as the
  -- code tests it. Where the counts were equal before, the connection is taken to have cached only
  -- such values.
  pub sync-IsSynced :
      (th : Thread) (st : State E)
      → Coherent E (StillCached th) st.props st.threaded
      → IsSynced th st (sync_local_properties E th st)
  unfolding sync_local_properties
  sync-IsSynced th st before =
      elim (Bool-cases (st.threaded.local_props_modcount == st.props.modcount)) [
        | inl level ↦
            (let e = (==_iff st.threaded.local_props_modcount st.props.modcount).0 level in
              rw (level, sync_local_properties)
                (record {
                  props = refl;
                  count = e;
                  left = λ k l. (λ h. (h, before e k l h), λ h. h.0);
                }))
        | inr stale ↦
            rw (stale, sync_local_properties)
              (record {
                props = refl;
                count = refl;
                left = λ k l. (
                  left_before th st st.threaded.properties k l,
                  left_after th st st.threaded.properties k l,
                );
              })
      ]
