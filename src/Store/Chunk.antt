-- ===== src/Store/Chunk.antt =====
-- `chunk` of src/store.c always ends: each round takes an element away.
use ext_pmmpthread.Prelude.{
  ℕ, zero, suc, ◌<◌, ◌≡◌, refl, ap, sym, subst, ◌∙◌, true, false, Bool-cases, inl, inr, Option,
  none, some, Option-cases, [], ◌∷◌, ◌++◌, length, length-append, ltb, is_some, arith,
}
use ext_pmmpthread.Zend.Keys.{Key}
use ext_pmmpthread.Zend.Buckets.{Slots, entries, bucket_at, live_from}
use ext_pmmpthread.Store.Types.{Storage}
use ext_pmmpthread.Store.Values.{Thread}
use ext_pmmpthread.Store.State.{Engine, State, bump_if}
use ext_pmmpthread.Store.Take.{hash_del, first_position, drop_member, Chunk, chunk_loop, chunk}
use ext_pmmpthread.Store.Bounds.{hash_del-Deletes, hash_del-entries}
use ext_pmmpthread.Store.Ends.{count_at}
use ext_pmmpthread.Store.Shift.{shift_bounds-hash}

bucket_split :
    {V : Type 0} (s : Slots V) (q : ℕ) (e : Key × V)
    → bucket_at s q ≡ some e
    → (pre : Slots V) × (post : Slots V) × (s ≡ pre ++ some e ∷ post)
bucket_split [] q e h = ground arith
bucket_split (b ∷ s) zero e h = ([], s, ap (λ x. x ∷ s) h)
bucket_split (b ∷ s) (suc q) e h =
    let (pre, post, f) = bucket_split s q e h in (b ∷ pre, post, ap (◌∷◌ b) f)

module _ (E : Engine) where
  fewer_left :
      (t : E.Z.Table) (p : ℕ) (k : Key) (z : Storage)
      → E.Z.current t p ≡ some (k, z)
      → suc (E.Z.num_elements (hash_del E t k)) ≡ E.Z.num_elements t
  fewer_left t p k z h =
      let at = sym (E.Z.current-bucket_at t p) ∙ h in
      let (pre, post, s) = bucket_split (E.Z.slots t) (live_from (E.Z.slots t) p) (k, z) at in
      let left =
        hash_del-entries E (hash_del E t k) pre post (hash_del-Deletes E t pre k z post s) in
      omega (
        arith,
        count_at E t (k, z) pre post s,
        E.Z.num_elements-entries (hash_del E t k),
        ap length left,
        length-append (entries pre) (entries post),
      )

  loop_returns :
      (n : ℕ) (th : Thread) (size p : ℕ) (c : Chunk E)
      → E.Z.num_elements c.state.props.hash < n
      → is_some (chunk_loop E n th size p c) ≡ true
  unfolding chunk_loop drop_member
  loop_returns zero th size p c h = absurd (omega arith)
  loop_returns (suc n) th size p c h = elim (Bool-cases (ltb (E.L.num_elements c.chunk) size)) [
    | inr full ↦ rw (full, chunk_loop) refl
    | inl more ↦ elim (Option-cases (E.Z.current c.state.props.hash p)) [
      | inl gone ↦ rw (more, gone, chunk_loop) refl
      | inr ((k, z), here) ↦
          (let less = fewer_left c.state.props.hash p k z here in
            let same = shift_bounds-hash E p c.state.props in
            rw (more, here, chunk_loop)
              (loop_returns n _ size _ _ (
                subst (λ t. E.Z.num_elements (hash_del E t k) < n) (sym same)
                  (omega (arith, less)))))
    ]
  ]

  -- `chunk` ends and returns on every store and for every size: a round for each element and one in
  -- which the loop ends are enough.
  pub chunk-returns :
      (th : Thread) (st : State E) (size : ℕ) → is_some (chunk E th true st size) ≡ true
  unfolding chunk
  chunk-returns th st size =
      returned
        (chunk_loop E (suc (E.Z.num_elements st.props.hash)) th size (first_position E st.props)
          start)
        (loop_returns (suc (E.Z.num_elements st.props.hash)) th size (first_position E st.props)
          start (omega arith))
    where
      start : Chunk E
      start = record { state = st; chunk = E.L.init; stale = false }

      returned :
          (o : Option (Chunk E))
          → is_some o ≡ true
          → is_some (elim o as (λ _. Option (State E × E.L.Table)) [
            | none ↦ none
            | some c ↦ some (bump_if E c.stale c.state, c.chunk)
          ])
            ≡ true
      returned none h = h
      returned (some c) h = refl
