-- ===== src/Zend/Taken.antt =====
-- The positions of the first and the last bucket once the first or the last one is taken.
use ext_pmmpthread.Prelude.{
  ℕ, suc, ◌+◌, ◌≡◌, refl, ap, sym, subst, ◌∙◌, inl, inr, Option, none, some, List, [], ◌∷◌, ◌++◌,
  length, arith,
}
use ext_pmmpthread.Zend.Keys.{Key}
use ext_pmmpthread.Zend.Buckets.{Slots, entries, holes, live_from, live_before, end_of}
use ext_pmmpthread.Zend.Ends.{
  length-holes, entries-holes, entries-append, last_view, live_from_after,
}
use ext_pmmpthread.Zend.Holes.{
  entries-trailing, live_from-prefix, live_from-past_holes, end_of-trailing, end_of-past,
  live_before-prefix, live_before-end_of,
}

module _ {V : Type 0} where
  -- Taking the first element: what is first then, and what is last.
  pub shift_first :
      (t post : Slots V) (n j : ℕ) (e d : (Key × V)) (ds : List (Key × V))
      → t ++ holes j ≡ holes n ++ none ∷ post
      → entries post ≡ d ∷ ds
      → live_from (holes n ++ some e ∷ post) (suc n) ≡ live_from t 0
  shift_first t post n j e d ds s h =
      let here = live_from_after (holes n) (some e) post in
      let et : entries t ≡ d ∷ ds =
        sym (entries-trailing t j)
        ∙ ap entries s
        ∙ entries-append (holes n) (none ∷ post)
        ∙ ap (λ es. es ++ entries post) (entries-holes V n)
        ∙ h in
      let there : live_from t 0 ≡ n + suc (live_from post 0) =
        sym (live_from-prefix t (holes j) d ds et)
        ∙ ap (λ u. live_from u 0) s
        ∙ live_from-past_holes n (none ∷ post) in
      subst (λ m. live_from (holes n ++ some e ∷ post) (suc m) ≡ suc m + live_from post 0)
        (length-holes V n) here
      ∙ omega (arith, there)

  pub shift_last :
      (t post : Slots V) (n j : ℕ) (e d : (Key × V)) (ds : List (Key × V))
      → t ++ holes j ≡ holes n ++ none ∷ post
      → entries post ≡ d ∷ ds
      → end_of (holes n ++ some e ∷ post) ≡ end_of t
  shift_last t post n j e d ds s h =
      let et : entries t ≡ d ∷ ds =
        sym (entries-trailing t j)
        ∙ ap entries s
        ∙ entries-append (holes n) (none ∷ post)
        ∙ ap (λ es. es ++ entries post) (entries-holes V n)
        ∙ h in
      end_of-past (holes n) (some e ∷ post) e (entries post) refl
      ∙ ap (λ m. length {A = Option (Key × V)} (holes n) + m)
          (end_of-past (some e ∷ []) post d ds h ∙ sym (end_of-past (none ∷ []) post d ds h))
      ∙ sym (end_of-past (holes n) (none ∷ post) d ds h)
      ∙ sym (ap end_of s)
      ∙ end_of-trailing t j d ds et

  -- Taking the last element: what is last then, and what is first.
  pub pop_last :
      (t pre : Slots V) (n j : ℕ) (e d : (Key × V)) (ds : List (Key × V))
      → t ++ holes j ≡ pre ++ holes (suc n)
      → entries pre ≡ d ∷ ds
      → live_before (pre ++ some e ∷ holes n) (length pre) ≡ some (end_of t)
  pop_last t pre n j e d ds s h =
      let et = sym (entries-trailing t j) ∙ ap entries s ∙ entries-trailing pre (suc n) ∙ h in
      live_before-prefix pre (some e ∷ holes n)
      ∙ live_before-end_of pre d ds h
      ∙ ap some (
          sym (end_of-trailing pre (suc n) d ds h)
          ∙ sym (ap end_of s)
          ∙ end_of-trailing t j d ds et)

  pub pop_first :
      (t pre : Slots V) (n j : ℕ) (e d : (Key × V)) (ds : List (Key × V))
      → t ++ holes j ≡ pre ++ holes (suc n)
      → entries pre ≡ d ∷ ds
      → live_from (pre ++ some e ∷ holes n) 0 ≡ live_from t 0
  pop_first t pre n j e d ds s h =
      let et = sym (entries-trailing t j) ∙ ap entries s ∙ entries-trailing pre (suc n) ∙ h in
      live_from-prefix pre (some e ∷ holes n) d ds h
      ∙ sym (live_from-prefix pre (holes (suc n)) d ds h)
      ∙ sym (ap (λ u. live_from u 0) s)
      ∙ live_from-prefix t (holes j) d ds et

  pub snoc-inj :
      (xs ys : List (Key × V)) (x y : Key × V) → xs ++ x ∷ [] ≡ ys ++ y ∷ [] → (xs ≡ ys) × (x ≡ y)
  snoc-inj [] [] x y h = ground arith
  snoc-inj [] (b ∷ []) x y h = ground arith
  snoc-inj [] (b ∷ c ∷ ys) x y h = ground arith
  snoc-inj (a ∷ []) [] x y h = ground arith
  snoc-inj (a ∷ c ∷ xs) [] x y h = ground arith
  snoc-inj (a ∷ xs) (b ∷ ys) x y h = ground (arith, snoc-inj xs ys x y)

  -- The first entry and those after it.
  pub first_split :
      (s : Slots V) (e : Key × V) (es : List (Key × V))
      → entries s ≡ e ∷ es
      → (n : ℕ) × (post : Slots V) × (s ≡ holes n ++ some e ∷ post) × (entries post ≡ es)
  first_split [] e es h = ground arith
  first_split (none ∷ s) e es h =
      let (n, post, q, r) = first_split s e es h in (suc n, post, ap (◌∷◌ none) q, r)
  first_split (some d ∷ s) e es h = (0, s, ground arith, ground arith)

  -- The last entry and those before it.
  pub last_split :
      (s : Slots V) (e : Key × V) (es : List (Key × V))
      → entries s ≡ es ++ e ∷ []
      → (pre : Slots V) × (n : ℕ) × (s ≡ pre ++ some e ∷ holes n) × (entries pre ≡ es)
  last_split s e es h = elim (last_view s) [
    | inl (n, q) ↦ none_there es (sym h ∙ ap entries q ∙ entries-holes V n)
    | inr (pre, d, n, q) ↦
        (let both = snoc-inj (entries pre) es d e (
            sym (
              entries-append pre (some d ∷ holes n)
              ∙ ap (λ r. entries pre ++ d ∷ r) (entries-holes V n))
            ∙ sym (ap entries q)
            ∙ h) in
          (pre, n, q ∙ ap (λ x. pre ++ some x ∷ holes n) both.1, both.0))
  ]
    where
      none_there :
          (es : List (Key × V))
          → es ++ e ∷ [] ≡ []
          → (pre : Slots V) × (n : ℕ) × (s ≡ pre ++ some e ∷ holes n) × (entries pre ≡ es)
      none_there [] h = ground arith
      none_there (d ∷ ds) h = ground arith
