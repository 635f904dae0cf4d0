-- ===== src/Store/Takes.antt =====
-- `shift` and `pop` of src/store.c take the first and the last element, and keep the cached
-- positions right.
use ext_pmmpthread.Prelude.{
  ℕ, suc, ◌≡◌, ◌≢◌, refl, ap, sym, subst, ◌∙◌, inl, inr, some, ◌==◌, ==_ne, List, [], ◌∷◌, ◌++◌,
  length, if◌then◌else◌, arith,
}
use ext_pmmpthread.Zend.Keys.{Key}
use ext_pmmpthread.Zend.Buckets.{Slots, entries, holes, live_from, end_of}
use ext_pmmpthread.Zend.Ends.{length-holes, entries-holes}
use ext_pmmpthread.Zend.Taken.{shift_first, shift_last, pop_first, pop_last}
use ext_pmmpthread.Store.Types.{Storage}
use ext_pmmpthread.Store.State.{Engine, Store, invalidate_bounds}
use ext_pmmpthread.Store.Take.{hash_del, shift_bounds, pop_bounds, moved}
use ext_pmmpthread.Store.Bounds.{slots_of, IsBounded, hash_del-Deletes}
use ext_pmmpthread.Store.Ends.{shorter, count_at, forward_at, backward_at}

module _ (E : Engine) where
  moved_first :
      (s : Store E) (n : ℕ) (e : Key × Storage) (post : Slots Storage)
      → slots_of E s ≡ holes n ++ some e ∷ post
      → moved E n (E.Z.forward s.hash n) ≡ live_from (holes n ++ some e ∷ post) (suc n)
  moved_first s n e post h = ap (moved E n) (
      subst (λ m. E.Z.forward s.hash m ≡ some (live_from (holes n ++ some e ∷ post) (suc m)))
        (length-holes Storage n) (forward_at E s.hash e (holes n) post h))

  pub shift_props :
      (s : Store E) (n : ℕ) (k : Key) (z : Storage) (post : Slots Storage)
      (es : List (Key × Storage))
      → slots_of E s ≡ holes n ++ some (k, z) ∷ post
      → entries post ≡ es
      → IsBounded E s
      → IsBounded E (record (shift_bounds E n s) { hash = hash_del E s.hash k })
  unfolding shift_bounds invalidate_bounds
  shift_props s n k z post [] h r b =
      let gone = hash_del-Deletes E s.hash (holes n) k z post h in
      let one : E.Z.num_elements s.hash ≡ 1 = omega (
        arith,
        count_at E s.hash (k, z) (holes n) post h,
        ap length r,
        ap length (entries-holes Storage n),
      ) in
      subst
        (λ m.
          IsBounded E
            (record (if m == 1
              then invalidate_bounds E s
              else record s { first = moved E n (E.Z.forward s.hash n) }) {
                hash = hash_del E s.hash k;
              }))
        (sym one)
        (record {
          bounds = record { first-ok = inl refl; last-ok = inl refl };
          room = omega (
            arith,
            b.room,
            ap length h,
            shorter E (hash_del E s.hash k) (holes n) post (some (k, z)) gone,
          );
        })
  shift_props s n k z post (d ∷ ds) h r b =
      let gone = hash_del-Deletes E s.hash (holes n) k z post h in
      let t = hash_del E s.hash k in
      let many : E.Z.num_elements s.hash ≢ 1 =
        omega (arith, count_at E s.hash (k, z) (holes n) post h, ap length r) in
      let last_same : end_of (slots_of E s) ≡ end_of (E.Z.slots t) =
        ap end_of h ∙ shift_last (E.Z.slots t) post n gone.spare (k, z) d ds gone.slots r in
      subst
        (λ c.
          IsBounded E
            (record (if c
              then invalidate_bounds E s
              else record s { first = moved E n (E.Z.forward s.hash n) }) { hash = t }))
        (sym (==_ne many))
        (record {
          bounds = record {
            first-ok = inr (
                moved_first s n (k, z) post h
                ∙ shift_first (E.Z.slots t) post n gone.spare (k, z) d ds gone.slots r);
            last-ok = elim b.bounds.last-ok [ inl i ↦ inl i | inr i ↦ inr (i ∙ last_same) ];
          };
          room = omega (arith, b.room, ap length h, shorter E t (holes n) post (some (k, z)) gone);
        })

  pub pop_props :
      (s : Store E) (n : ℕ) (k : Key) (z : Storage) (pre : Slots Storage)
      (es : List (Key × Storage))
      → slots_of E s ≡ pre ++ some (k, z) ∷ holes n
      → entries pre ≡ es
      → IsBounded E s
      → IsBounded E (record (pop_bounds E (length pre) s) { hash = hash_del E s.hash k })
  unfolding pop_bounds invalidate_bounds
  pop_props s n k z pre [] h r b =
      let gone = hash_del-Deletes E s.hash pre k z (holes n) h in
      let one : E.Z.num_elements s.hash ≡ 1 = omega (
        arith,
        count_at E s.hash (k, z) pre (holes n) h,
        ap length r,
        ap length (entries-holes Storage n),
      ) in
      subst
        (λ m.
          IsBounded E
            (record (if m == 1
              then invalidate_bounds E s
              else record s { last = moved E (length pre) (E.Z.backward s.hash (length pre)) }) {
                hash = hash_del E s.hash k;
              }))
        (sym one)
        (record {
          bounds = record { first-ok = inl refl; last-ok = inl refl };
          room = omega (
            arith,
            b.room,
            ap length h,
            shorter E (hash_del E s.hash k) pre (holes n) (some (k, z)) gone,
          );
        })
  pop_props s n k z pre (d ∷ ds) h r b =
      let gone = hash_del-Deletes E s.hash pre k z (holes n) h in
      let t = hash_del E s.hash k in
      let many : E.Z.num_elements s.hash ≢ 1 =
        omega (arith, count_at E s.hash (k, z) pre (holes n) h, ap length r) in
      let first_same : live_from (slots_of E s) 0 ≡ live_from (E.Z.slots t) 0 =
        ap (λ u. live_from u 0) h
        ∙ pop_first (E.Z.slots t) pre n gone.spare (k, z) d ds gone.slots r in
      let before = pop_last (E.Z.slots t) pre n gone.spare (k, z) d ds gone.slots r in
      subst
        (λ c.
          IsBounded E
            (record (if c
              then invalidate_bounds E s
              else record s { last = moved E (length pre) (E.Z.backward s.hash (length pre)) }) {
                hash = t;
              }))
        (sym (==_ne many))
        (record {
          bounds = record {
            first-ok = elim b.bounds.first-ok [ inl i ↦ inl i | inr i ↦ inr (i ∙ first_same) ];
            last-ok = inr (
                ap (moved E (length pre))
                  (backward_at E s.hash (k, z) pre (holes n) (end_of (E.Z.slots t)) h before));
          };
          room = omega (arith, b.room, ap length h, shorter E t pre (holes n) (some (k, z)) gone);
        })
