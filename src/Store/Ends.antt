-- ===== src/Store/Ends.antt =====
-- Where `shift` and `pop` of src/store.c find the first and the last element, and the neighbours
-- that they move to.
use ext_pmmpthread.Prelude.{
  ℕ, suc, ◌+◌, ◌≤◌, ◌≡◌, ap, ◌∙◌, Option, none, some, ◌∷◌, ◌++◌, length, length-append, arith,
}
use ext_pmmpthread.Zend.Keys.{Key}
use ext_pmmpthread.Zend.Buckets.{
  Slots, entries, holes, live_from, live_before, end_of, forward_from, backward_from, bucket_at,
}
use ext_pmmpthread.Zend.Ends.{
  entries-append, live_from-holes, live_from_at, bucket_at-append, end_of_at,
}
use ext_pmmpthread.Store.Types.{Storage}
use ext_pmmpthread.Store.State.{Engine, Store}
use ext_pmmpthread.Store.Take.{first_position, last_position}
use ext_pmmpthread.Store.Bounds.{slots_of, IsBounded, Deletes}

module _ (E : Engine) where
  pub shorter :
      (t : E.Z.Table) (pre post : Slots Storage) (b : Option (Key × Storage))
      → Deletes E pre post t
      → length (E.Z.slots t) ≤ length (pre ++ b ∷ post)
  shorter t pre post b d = omega (
    arith,
    length-append (E.Z.slots t) (holes d.spare),
    ap length d.slots,
    length-append pre (b ∷ post),
    length-append pre (none ∷ post),
  )

  -- Where the first element is, whether or not its position is cached.
  pub first_position_lem :
      (s : Store E) (n : ℕ) (e : Key × Storage) (post : Slots Storage)
      → slots_of E s ≡ holes n ++ some e ∷ post
      → IsBounded E s
      → first_position E s ≡ n
  unfolding first_position
  first_position_lem s n e post h b =
      let at : live_from (slots_of E s) 0 ≡ n =
        ap (λ u. live_from u 0) h ∙ live_from-holes n e post in
      ground (arith, at, b.bounds.first-ok, E.Z.reset-live_from s.hash)

  pub last_position_lem :
      (s : Store E) (n : ℕ) (e : Key × Storage) (pre : Slots Storage)
      → slots_of E s ≡ pre ++ some e ∷ holes n
      → IsBounded E s
      → last_position E s ≡ length pre
  unfolding last_position
  last_position_lem s n e pre h b =
      let at : end_of (slots_of E s) ≡ length pre = ap end_of h ∙ end_of_at pre e n in
      ground (arith, at, b.bounds.last-ok, E.Z.end-end_of s.hash)

  pub current_at :
      (t : E.Z.Table) (e : Key × Storage) (pre post : Slots Storage)
      → E.Z.slots t ≡ pre ++ some e ∷ post
      → E.Z.current t (length pre) ≡ some e
  current_at t e pre post h =
      E.Z.current-bucket_at t (length pre)
      ∙ ap (λ u. bucket_at u (live_from u (length pre))) h
      ∙ ap (bucket_at (pre ++ some e ∷ post)) (live_from_at pre e post)
      ∙ bucket_at-append pre (some e) post

  pub count_at :
      (t : E.Z.Table) (e : Key × Storage) (pre post : Slots Storage)
      → E.Z.slots t ≡ pre ++ some e ∷ post
      → E.Z.num_elements t ≡ suc (length (entries pre) + length (entries post))
  count_at t e pre post h =
      let all =
        E.Z.num_elements-entries t
        ∙ ap (λ u. length (entries u)) h
        ∙ ap length (entries-append pre (some e ∷ post)) in
      omega (arith, all, length-append (entries pre) (e ∷ entries post))

  pub forward_at :
      (t : E.Z.Table) (e : Key × Storage) (pre post : Slots Storage)
      → E.Z.slots t ≡ pre ++ some e ∷ post
      → E.Z.forward t (length pre) ≡ some (live_from (pre ++ some e ∷ post) (suc (length pre)))
  forward_at t e pre post h =
      E.Z.forward-forward_from t (length pre)
      ∙ ap (λ u. forward_from u (length pre)) h
      ∙ ground (arith, live_from_at pre e post, length-append pre (some e ∷ post))

  pub backward_at :
      (t : E.Z.Table) (e : Key × Storage) (pre post : Slots Storage) (q : ℕ)
      → E.Z.slots t ≡ pre ++ some e ∷ post
      → live_before (pre ++ some e ∷ post) (length pre) ≡ some q
      → E.Z.backward t (length pre) ≡ some q
  backward_at t e pre post q h b =
      E.Z.backward-backward_from t (length pre)
      ∙ ap (λ u. backward_from u (length pre)) h
      ∙ ground (arith, b, length-append pre (some e ∷ post))
