-- ===== src/Globals/Strings.antt =====
-- The permanent strings of src/globals.c: one for each text.
use ext_pmmpthread.Prelude.{
  ℕ, ◌≡◌, refl, sym, ap, subst, true, false, Option, none, some, List, [], ◌∷◌, if◌then◌else◌, ◌↔◌,
  Option-cases, Bool-cases, inl, inr, arith,
}
use ext_pmmpthread.Store.Types.{ZendString}
use ext_pmmpthread.Globals.{
  Globals, same_text, find_text, or_found, find_interned_string, copy_of, add_new,
  add_interned_string,
}

pub same_text_iff : (s t : List ℕ) → (same_text s t ≡ true) ↔ (s ≡ t)
same_text_iff [] [] = (λ _. refl, λ _. refl)
same_text_iff [] (d ∷ ds) = (λ e. ground arith, λ e. ground arith)
same_text_iff (c ∷ cs) [] = (λ e. ground arith, λ e. ground arith)
same_text_iff (c ∷ cs) (d ∷ ds) = ground (arith, same_text_iff cs ds)

same_text_self : (t : List ℕ) → same_text t t ≡ true
same_text_self t = (same_text_iff t t).1 refl

find_text-text :
    (t : List ℕ) (ss : List ZendString) (r : ZendString) → find_text t ss ≡ some r → r.text ≡ t
find_text-text t [] r e = ground arith
find_text-text t (s ∷ ss) r e = ground (arith, same_text_iff s.text t, find_text-text t ss r)

module _ (find_permanent : List ℕ → Option ZendString)
    (permanent_text : (t : List ℕ) (s : ZendString) → find_permanent t ≡ some s → s.text ≡ t) where
  -- The string that stands for a text, if there is one.
  abbrev stands_for : List ℕ → Globals → Option ZendString
  stands_for t g = or_found find_permanent (find_permanent t) (find_text t g.interned)

  stands_for-text :
      (t : List ℕ) (g : Globals) (r : ZendString) → stands_for t g ≡ some r → r.text ≡ t
  stands_for-text t g r e = elim (Option-cases (find_permanent t)) [
    | inl none_there ↦ ground (arith, none_there, find_text-text t g.interned r)
    | inr (s, there) ↦ ground (arith, there, permanent_text t s there)
  ]

  -- The strings added one after another, by any threads.
  abbrev pub add_all : List (ℕ × ZendString) → Globals → Globals
  add_all [] g = g
  add_all ((fresh, s) ∷ more) g = add_all more (add_interned_string find_permanent true fresh s g).1

  add_known :
      (fresh : ℕ) (s r : ZendString) (g : Globals)
      → s.permanent ≡ false
      → stands_for s.text g ≡ some r
      → add_interned_string find_permanent true fresh s g ≡ (some r, g)
  unfolding add_interned_string find_interned_string
  add_known fresh s r g e known = rw (e, known) refl

  add_permanent :
      (fresh : ℕ) (s : ZendString) (g : Globals)
      → s.permanent ≡ true
      → add_interned_string find_permanent true fresh s g ≡ (some s, g)
  unfolding add_interned_string
  add_permanent fresh s g e =
      ap
        (λ b.
          if b
          then (some s, g)
          else add_new find_permanent fresh s (find_interned_string find_permanent true s g) g)
        e

  abbrev with_copy : ℕ → ZendString → Globals → Globals
  with_copy fresh s g = record g { interned = copy_of find_permanent fresh s ∷ g.interned }

  add_unknown :
      (fresh : ℕ) (s : ZendString) (g : Globals)
      → s.permanent ≡ false
      → stands_for s.text g ≡ none
      → add_interned_string find_permanent true fresh s g
        ≡ (some (copy_of find_permanent fresh s), with_copy fresh s g)
  unfolding add_interned_string find_interned_string
  add_unknown fresh s g e unknown = rw (e, unknown) refl

  copy_keeps :
      (fresh : ℕ) (s r : ZendString) (t : List ℕ) (g : Globals)
      → stands_for s.text g ≡ none
      → stands_for t g ≡ some r
      → stands_for t (with_copy fresh s g) ≡ some r
  copy_keeps fresh s r t g unknown known = elim (Bool-cases (same_text s.text t)) [
    | inl e ↦
        let same : stands_for t g ≡ none =
          subst (λ u. stands_for u g ≡ none) ((same_text_iff s.text t).0 e) unknown in
        ground (arith, same, known)
    | inr e ↦ rw e known
  ]

  add_keeps :
      (fresh : ℕ) (s r : ZendString) (t : List ℕ) (g : Globals)
      → stands_for t g ≡ some r
      → stands_for t (add_interned_string find_permanent true fresh s g).1 ≡ some r
  add_keeps fresh s r t g known = elim (Bool-cases s.permanent) [
    | inl e ↦ subst (λ q. stands_for t q.1 ≡ some r) (sym (add_permanent fresh s g e)) known
    | inr e ↦ elim (Option-cases (stands_for s.text g)) [
      | inr (q, there) ↦
          subst (λ q. stands_for t q.1 ≡ some r) (sym (add_known fresh s q g e there)) known
      | inl unknown ↦
          subst (λ q. stands_for t q.1 ≡ some r) (sym (add_unknown fresh s g e unknown))
            (copy_keeps fresh s r t g unknown known)
    ]
  ]

  add_all_keeps :
      (more : List (ℕ × ZendString)) (r : ZendString) (t : List ℕ) (g : Globals)
      → stands_for t g ≡ some r
      → stands_for t (add_all more g) ≡ some r
  add_all_keeps [] r t g known = known
  add_all_keeps ((fresh, s) ∷ more) r t g known =
      add_all_keeps more r t (add_interned_string find_permanent true fresh s g).1
        (add_keeps fresh s r t g known)

  added_stands :
      (fresh : ℕ) (s : ZendString) (g : Globals)
      → s.permanent ≡ false
      → (r : ZendString) × (((add_interned_string find_permanent true fresh s g).0 ≡ some r)
          × (stands_for s.text (add_interned_string find_permanent true fresh s g).1 ≡ some r))
  added_stands fresh s g e = elim (Option-cases (stands_for s.text g)) [
    | inr (q, there) ↦ (
      q,
      subst (λ p. (p.0 ≡ some q) × (stands_for s.text p.1 ≡ some q))
          (sym (add_known fresh s q g e there)) (refl, there),
    )
    | inl unknown ↦
        let c = copy_of find_permanent fresh s in
        (
          c,
          subst (λ p. (p.0 ≡ some c) × (stands_for s.text p.1 ≡ some c))
              (sym (add_unknown fresh s g e unknown))
              (refl, ground (arith, unknown, same_text_self s.text)),
        )
  ]

  -- The string that stands for a text is unique and stays: after a string that is not permanent has
  -- been added, the result has its text, and whatever strings are added later, adding any string of
  -- that text that is not permanent either gives the same result and changes nothing, when the lock is always taken and the
  -- engine's look-up of permanent strings finds a string of the text that it is asked for.
  pub added_once :
      (fresh again : ℕ) (s s' : ZendString) (more : List (ℕ × ZendString)) (g : Globals)
      → s.permanent ≡ false
      → s'.permanent ≡ false
      → s'.text ≡ s.text
      → let g' = add_all more (add_interned_string find_permanent true fresh s g).1 in
        (r : ZendString) × (((add_interned_string find_permanent true fresh s g).0 ≡ some r)
          × ((r.text ≡ s.text)
              × (add_interned_string find_permanent true again s' g' ≡ (some r, g'))))
  added_once fresh again s s' more g e e' same =
      let (r, (first, stands)) = added_stands fresh s g e in
      let g1 = (add_interned_string find_permanent true fresh s g).1 in
      let stays = add_all_keeps more r s.text g1 stands in
      (
        r,
        (
          first,
          (
            stands_for-text s.text g1 r stands,
            add_known again s' r (add_all more g1) e'
                (subst (λ t. stands_for t (add_all more g1) ≡ some r) (sym same) stays),
          ),
        ),
      )
