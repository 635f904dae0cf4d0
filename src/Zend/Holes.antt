-- ===== src/Zend/Holes.antt =====
-- Tables with holes: what holes before the first entry and after the last one change.
use ext_pmmpthread.Prelude.{
  ℕ, zero, suc, ◌+◌, ◌≡◌, refl, ap, sym, ◌∙◌, subst, inl, inr, none, some, List, [], ◌∷◌, ◌++◌,
  length, length-append, arith,
}
use mathlib.Core.List.{append-nil, append_assoc}
use ext_pmmpthread.Zend.Keys.{Key}
use ext_pmmpthread.Zend.Buckets.{Slots, entries, holes, live_from, live_before, end_of}
use ext_pmmpthread.Zend.Ends.{entries-holes, entries-append, last_view, live_before_at, end_of_at}

module _ {V : Type 0} where
  pub holes-append : (m n : ℕ) → holes {V = V} m ++ holes n ≡ holes (m + n)
  holes-append zero n = ap holes (omega arith)
  holes-append (suc m) n =
      let next : suc (m + n) ≡ suc m + n = omega arith in
      ap (◌∷◌ none) (holes-append m n) ∙ ap holes next

  pub entries-trailing : (s : Slots V) (n : ℕ) → entries (s ++ holes n) ≡ entries s
  entries-trailing s n =
      entries-append s (holes n)
      ∙ ap (λ es. entries s ++ es) (entries-holes V n)
      ∙ append-nil (entries s)

  pub live_from-prefix :
      (u w : Slots V) (d : Key × V) (ds : List (Key × V))
      → entries u ≡ d ∷ ds
      → live_from (u ++ w) 0 ≡ live_from u 0
  live_from-prefix [] w d ds h = ground arith
  live_from-prefix (none ∷ u) w d ds h = ap suc (live_from-prefix u w d ds h)
  live_from-prefix (some e ∷ u) w d ds h = refl

  pub live_from-past_holes : (n : ℕ) (s : Slots V) → live_from (holes n ++ s) 0 ≡ n + live_from s 0
  live_from-past_holes zero s = omega arith
  live_from-past_holes (suc n) s = omega (arith, live_from-past_holes n s)

  -- A table with an entry has a last one.
  pub last_entry :
      (u : Slots V) (d : Key × V) (ds : List (Key × V))
      → entries u ≡ d ∷ ds
      → (pre : Slots V) × (e : Key × V) × (n : ℕ) × (u ≡ pre ++ some e ∷ holes n)
  last_entry u d ds h = elim (last_view u) [
    | inr found ↦ found
    | inl (n, e) ↦ ground (arith, sym (entries-holes V n) ∙ ap entries (sym e) ∙ h)
  ]

  pub end_of-trailing :
      (u : Slots V) (n : ℕ) (d : Key × V) (ds : List (Key × V))
      → entries u ≡ d ∷ ds
      → end_of (u ++ holes n) ≡ end_of u
  end_of-trailing u n d ds h =
      let (pre, e, m, q) = last_entry u d ds h in
      subst (λ s. end_of (s ++ holes n) ≡ end_of s) (sym q)
        (ap end_of (append_assoc pre (some e ∷ holes m) (holes n))
          ∙ ap (λ hs. end_of (pre ++ some e ∷ hs)) (holes-append m n)
          ∙ end_of_at pre e (m + n)
          ∙ sym (end_of_at pre e m))

  pub end_of-past :
      (s u : Slots V) (d : Key × V) (ds : List (Key × V))
      → entries u ≡ d ∷ ds
      → end_of (s ++ u) ≡ length s + end_of u
  end_of-past s u d ds h =
      let (pre, e, m, q) = last_entry u d ds h in
      subst (λ t. end_of (s ++ t) ≡ length s + end_of t) (sym q)
        (ap end_of (sym (append_assoc s pre (some e ∷ holes m)))
          ∙ end_of_at (s ++ pre) e m
          ∙ length-append s pre
          ∙ ap (λ n. length s + n) (sym (end_of_at pre e m)))

  pub live_before-prefix :
      (s w : Slots V) → live_before (s ++ w) (length s) ≡ live_before s (length s)
  live_before-prefix [] [] = refl
  live_before-prefix [] (b ∷ w) = ground arith
  live_before-prefix (none ∷ s) w = rw (live_before-prefix s w)
  live_before-prefix (some e ∷ s) w = rw (live_before-prefix s w)

  pub live_before-end_of :
      (u : Slots V) (d : Key × V) (ds : List (Key × V))
      → entries u ≡ d ∷ ds
      → live_before u (length u) ≡ some (end_of u)
  live_before-end_of u d ds h =
      let (pre, e, m, q) = last_entry u d ds h in
      subst (λ s. live_before s (length s) ≡ some (end_of s)) (sym q)
        (live_before_at pre e m (length (pre ++ some e ∷ holes m))
            (omega (arith, length-append pre (some e ∷ holes m)))
          ∙ ap some (sym (end_of_at pre e m)))
