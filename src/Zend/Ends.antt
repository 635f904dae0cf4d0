-- ===== src/Zend/Ends.antt =====
-- The first and the last bucket of a table.
use ext_pmmpthread.Prelude.{
  ℕ, zero, suc, ◌+◌, ◌<◌, ◌≤◌, ◌≡◌, refl, ap, ◌⊎◌, inl, inr, Option, none, some, [], ◌∷◌, ◌++◌,
  length, length-append, arith,
}
use ext_pmmpthread.Zend.Keys.{Key, key_eq_self, key_eq_iff}
use ext_pmmpthread.Zend.Buckets.{
  Slots, lookup, entries, erase, holes, Unique, live_from, live_before, end_of, bucket_at,
}

module _ (V : Type 0) where
  pub length-holes : (n : ℕ) → length {A = Option (Key × V)} (holes n) ≡ n
  length-holes zero = refl
  length-holes (suc n) = ap suc (length-holes n)

  pub entries-holes : (n : ℕ) → entries {V = V} (holes n) ≡ []
  entries-holes zero = refl
  entries-holes (suc n) = entries-holes n

  pub lookup-holes : (n : ℕ) (k : Key) → lookup {V = V} k (holes n) ≡ none
  lookup-holes zero k = refl
  lookup-holes (suc n) k = lookup-holes n k

  pub live_before-holes : (n p : ℕ) → live_before {V = V} (holes n) p ≡ none
  live_before-holes zero p = refl
  live_before-holes (suc n) zero = refl
  live_before-holes (suc n) (suc p) = rw (live_before-holes n p)

module _ {V : Type 0} where
  pub entries-append : (s t : Slots V) → entries (s ++ t) ≡ entries s ++ entries t
  entries-append [] t = refl
  entries-append (none ∷ s) t = entries-append s t
  entries-append (some e ∷ s) t = ap (◌∷◌ e) (entries-append s t)

  -- A table has no entry, or holes up to its first one.
  pub first_view :
      (s : Slots V)
      → (entries s ≡ [])
        ⊎ ((n : ℕ) × (e : Key × V) × (post : Slots V) × (s ≡ holes n ++ some e ∷ post))
  first_view [] = inl refl
  first_view (none ∷ s) = elim (first_view s) [
    | inl e ↦ inl e
    | inr (n, e, post, q) ↦ inr (suc n, e, post, ap (◌∷◌ none) q)
  ]
  first_view (some e ∷ s) = inr (0, e, s, refl)

  -- Or holes after its last one.
  pub last_view :
      (s : Slots V)
      → ((n : ℕ) × (s ≡ holes n))
        ⊎ ((pre : Slots V) × (e : Key × V) × (n : ℕ) × (s ≡ pre ++ some e ∷ holes n))
  last_view [] = inl (0, refl)
  last_view (b ∷ s) = elim (last_view s) [
    | inr (pre, e, n, q) ↦ inr (b ∷ pre, e, n, ap (◌∷◌ b) q)
    | inl (n, q) ↦ only b n q
  ]
    where
      only :
          (b : Option (Key × V)) (n : ℕ)
          → s ≡ holes n
          → ((m : ℕ) × (b ∷ s ≡ holes m))
            ⊎ ((pre : Slots V) × (e : Key × V) × (m : ℕ) × (b ∷ s ≡ pre ++ some e ∷ holes m))
      only none n q = inl (suc n, ap (◌∷◌ none) q)
      only (some e) n q = inr ([], e, n, ap (◌∷◌ (some e)) q)

  pub live_from-holes :
      (n : ℕ) (e : Key × V) (post : Slots V) → live_from (holes n ++ some e ∷ post) 0 ≡ n
  live_from-holes zero e post = refl
  live_from-holes (suc n) e post = ap suc (live_from-holes n e post)

  pub live_from_at :
      (pre : Slots V) (e : Key × V) (post : Slots V)
      → live_from (pre ++ some e ∷ post) (length pre) ≡ length pre
  live_from_at [] e post = refl
  live_from_at (none ∷ pre) e post = ap suc (live_from_at pre e post)
  live_from_at (some d ∷ pre) e post = ap suc (live_from_at pre e post)

  pub live_from_after :
      (pre : Slots V) (b : Option (Key × V)) (post : Slots V)
      → live_from (pre ++ b ∷ post) (suc (length pre)) ≡ suc (length pre) + live_from post 0
  live_from_after [] none post = omega arith
  live_from_after [] (some e) post = omega arith
  live_from_after (none ∷ pre) b post = omega (arith, live_from_after pre b post)
  live_from_after (some d ∷ pre) b post = omega (arith, live_from_after pre b post)

  pub bucket_at-append :
      (pre : Slots V) (b : Option (Key × V)) (post : Slots V)
      → bucket_at (pre ++ b ∷ post) (length pre) ≡ b
  bucket_at-append [] b post = refl
  bucket_at-append (c ∷ pre) b post = bucket_at-append pre b post

  pub erase-append :
      (pre : Slots V) (k : Key) (v : V) (post : Slots V)
      → lookup k pre ≡ none
      → erase k (pre ++ some (k, v) ∷ post) ≡ pre ++ none ∷ post
  erase-append [] k v post h = ground (arith, key_eq_self k)
  erase-append (none ∷ pre) k v post h = ap (◌∷◌ none) (erase-append pre k v post h)
  erase-append (some (j, w) ∷ pre) k v post h = ground (arith, erase-append pre k v post)

  pub lookup-append_self :
      (pre : Slots V) (k : Key) (v : V) (post : Slots V)
      → lookup k pre ≡ none
      → lookup k (pre ++ some (k, v) ∷ post) ≡ some v
  lookup-append_self [] k v post h = ground (arith, key_eq_self k)
  lookup-append_self (none ∷ pre) k v post h = lookup-append_self pre k v post h
  lookup-append_self (some (j, w) ∷ pre) k v post h =
      ground (arith, lookup-append_self pre k v post)

  -- In a table with unique keys, no earlier bucket has the key of a later one.
  pub Unique-before :
      (pre : Slots V) (k : Key) (v : V) (post : Slots V)
      → Unique (pre ++ some (k, v) ∷ post)
      → lookup k pre ≡ none
  Unique-before [] k v post u = refl
  Unique-before (none ∷ pre) k v post u = Unique-before pre k v post u
  Unique-before (some (j, w) ∷ pre) k v post u =
      let out = Unique-before pre k v post u.1 in
      ground (arith, out, key_eq_iff j k, u.0, lookup-append_self pre k v post out)

  -- The last bucket before a position among the holes that follow it.
  pub live_before_at :
      (pre : Slots V) (e : Key × V) (n p : ℕ)
      → length pre < p
      → live_before (pre ++ some e ∷ holes n) p ≡ some (length pre)
  live_before_at [] e n zero h = absurd (omega arith)
  live_before_at [] e n (suc p) h = rw (live_before-holes V n p, live_before)
  live_before_at (b ∷ pre) e n zero h = absurd (omega arith)
  live_before_at (none ∷ pre) e n (suc p) h = rw (live_before_at pre e n p (omega arith))
  live_before_at (some d ∷ pre) e n (suc p) h = rw (live_before_at pre e n p (omega arith))

  pub end_of_at :
      (pre : Slots V) (e : Key × V) (n : ℕ) → end_of (pre ++ some e ∷ holes n) ≡ length pre
  end_of_at pre e n =
      let s = pre ++ some e ∷ holes n in
      rw (
        live_before_at pre e n (length s) (omega (arith, length-append pre (some e ∷ holes n))),
        end_of,
      )

module _ {V : Type 0} where
  pub live_from-le : (s : Slots V) (p : ℕ) → p ≤ live_from s p
  live_from-le [] p = omega arith
  live_from-le (none ∷ s) zero = omega arith
  live_from-le (some e ∷ s) zero = omega arith
  live_from-le (none ∷ s) (suc p) = omega (arith, live_from-le s p)
  live_from-le (some e ∷ s) (suc p) = omega (arith, live_from-le s p)

  pub bucket_at-beyond : (s : Slots V) (p : ℕ) → length s ≤ p → bucket_at s p ≡ none
  bucket_at-beyond [] p h = refl
  bucket_at-beyond (b ∷ s) zero h = absurd (omega arith)
  bucket_at-beyond (b ∷ s) (suc p) h = bucket_at-beyond s p (omega arith)

  pub live_from-empty : (s : Slots V) → entries s ≡ [] → live_from s 0 ≡ length s
  live_from-empty [] h = refl
  live_from-empty (none ∷ s) h = ap suc (live_from-empty s h)
  live_from-empty (some e ∷ s) h = ground arith
