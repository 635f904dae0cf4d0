-- ===== src/Pool/Given.antt =====
-- One submission to a pool whose tasks go round (src/classes/pool.c).
use ext_pmmpthread.Prelude.{
  ℕ, suc, ◌+◌, ◌%◌, ◌<◌, ◌≤◌, ◌≡◌, sym, ◌∙◌, ap, true, Option, none, some, List, [], ◌∷◌, ◌++◌,
  length, length-append, get_elem?, Bool-cases, Option-cases, inl, inr, subst, leb, at_least,
  if◌then◌else◌, ℤ, pos, arith,
}
use native.Mathlib.Nat.{suc-mod, mod_self, mod-eq_of_lt}
use native.Mathlib.Omega.{mod_fact}
use ext_pmmpthread.Pool.{
  index_find, index_update, Calls, Submitted, submitted, Pool, workers_of, next_key, new_worker,
  submit,
}
use ext_pmmpthread.Pool.Workers.{
  Numbered, Numbered-snoc, find-outside, find-inside, update-absent, by_number, find-by_number,
  by_number-snoc,
}
use ext_pmmpthread.Pool.Submit.{submit-found, submit-new}

-- The remainder counts up and starts again.
next-mod :
    (i d : ℕ) → (if leb (suc d) (suc (i % suc d)) then 0 else suc (i % suc d)) ≡ suc i % suc d
next-mod i d = next (i % suc d) (mod_fact i d) ∙ sym (suc-mod i (suc d))
  where
    next : (r : ℕ) → r < suc d → (if leb (suc d) (suc r) then 0 else suc r) ≡ suc r % suc d
    next r l = elim (Bool-cases (leb (suc d) (suc r))) [
      | inl full ↦ let last : r ≡ d = ground arith in ground (arith, last, mod_self (suc d))
      | inr room ↦ ground (arith, mod-eq_of_lt {n = suc r} {m = suc d} (ground arith))
    ]

module _ {W T S : Type 0} (C : Calls W T S) where
  -- A pool of `suc d` workers at most after `i` submissions.
  pub record Robin (d c : ℕ) (ctor : Option ℕ) (i : ℕ) (p : Pool W) : Type 0 where
    pub size : p.size ≡ pos (suc d)
    pub class : p.class ≡ some c
    pub args : p.ctor ≡ ctor
    pub numbered : Numbered 0 (workers_of p)
    pub many : length (workers_of p) ≡ (if leb i (suc d) then i else suc d)
    pub next : next_key p ≡ i % suc d

  -- What becomes of the workers, listed by number, and of the state when the `i`-th task is given: it
  -- is stacked on the worker `i % size`, which is made where it is not there yet.
  abbrev pub give : (d c : ℕ) (ctor : Option ℕ) (i : ℕ) → T → List W → S → List W × S
  give d c ctor i t ws s = elim (get_elem? ws (i % suc d)) as (λ _. List W × S) [
    | some w ↦ (ws, C.stack w t s)
    | none ↦ (let (w, s) = new_worker C c ctor s in (ws ++ w ∷ [], C.stack w t s))
  ]

  next_after :
      (d i last : ℕ) (size : ℤ)
      → size ≡ pos (suc d)
      → last ≡ suc (i % suc d)
      → (if at_least last size then 0 else last) ≡ suc i % suc d
  next_after d i last size e l = rw (e, l) (next-mod i d)

  -- What one submission comes to.
  pub record Given (d c : ℕ) (ctor : Option ℕ) (i : ℕ) (t : T) (p : Pool W) (s : S)
      (r : Submitted × (Pool W × S)) : Type 0 where
    pub answer : r.0 ≡ submitted (i % suc d)
    pub robin : Robin d c ctor (suc i) r.1.0
    pub done :
        (by_number (workers_of r.1.0), r.1.1) ≡ give d c ctor i t (by_number (workers_of p)) s

  -- The worker that the task goes to, as the array and as the list have it.
  elem :
      (d c : ℕ) (ctor : Option ℕ) (i : ℕ) (p : Pool W)
      → Robin d c ctor i p
      → get_elem? (by_number (workers_of p)) (i % suc d) ≡ index_find (workers_of p) (next_key p)
  elem d c ctor i p h =
      ap (get_elem? (by_number (workers_of p))) (sym h.next)
      ∙ sym (find-by_number 0 (next_key p) (workers_of p) h.numbered)
      ∙ ap (index_find (workers_of p)) (omega arith)

  given_to :
      (d c : ℕ) (ctor : Option ℕ) (i : ℕ) (t : T) (ws : List W) (s : S) (o : Option W)
      → get_elem? ws (i % suc d) ≡ o
      → give d c ctor i t ws s ≡ elim o as (λ _. List W × S) [
        | some w ↦ (ws, C.stack w t s)
        | none ↦ (let (w, s) = new_worker C c ctor s in (ws ++ w ∷ [], C.stack w t s))
      ]
  given_to d c ctor i t ws s o e =
      ap
        (λ o. elim o as (λ _. List W × S) [
          | some w ↦ (ws, C.stack w t s)
          | none ↦ (let (w, s) = new_worker C c ctor s in (ws ++ w ∷ [], C.stack w t s))
        ])
        e

  found-Given :
      (d c : ℕ) (ctor : Option ℕ) (i : ℕ) (t : T) (p : Pool W) (s : S) (w : W)
      → Robin d c ctor i p
      → index_find (workers_of p) (next_key p) ≡ some w
      → Given d c ctor i t p s (submit C t p s)
  found-Given d c ctor i t p s w h e =
      let inside : next_key p < length (workers_of p) =
        ground (arith, find-outside 0 (next_key p) (workers_of p) h.numbered) in
      subst (Given d c ctor i t p s) (sym (submit-found C t p s w e)) (record {
        answer = ap submitted h.next;
        robin = record {
          size = h.size;
          class = h.class;
          args = h.args;
          numbered = h.numbered;
          many =
              ground
                (arith, e, inside, h.many, h.next, mod_fact i d, mod-eq_of_lt {n = i} {m = suc d});
          next = next_after d i (suc (next_key p)) p.size h.size (ap suc h.next);
        };
        done =
            sym (
              given_to d c ctor i t (by_number (workers_of p)) s (some w)
                (elem d c ctor i p h ∙ e));
      })

  -- A worker is added exactly at the end of the array.
  grown :
      (d c : ℕ) (ctor : Option ℕ) (i : ℕ) (p : Pool W) (w : W)
      → Robin d c ctor i p
      → index_find (workers_of p) (next_key p) ≡ none
      → (next_key p ≡ length (workers_of p))
        × (index_update (workers_of p) (next_key p) w
            ≡ workers_of p ++ (0 + length (workers_of p), w) ∷ [])
  grown d c ctor i p w h e =
      let outside : length (workers_of p) ≤ next_key p =
        ground (arith, find-inside 0 (next_key p) (workers_of p) h.numbered) in
      let here : next_key p ≡ length (workers_of p) =
        ground (arith, outside, h.many, h.next, mod_fact i d, mod-eq_of_lt {n = i} {m = suc d}) in
      (
        here,
        update-absent (next_key p) w (workers_of p) e
            ∙ ap (λ k. workers_of p ++ (k, w) ∷ []) (here ∙ omega arith),
      )

  new-Given :
      (d c : ℕ) (ctor : Option ℕ) (i : ℕ) (t : T) (p : Pool W) (s : S)
      → Robin d c ctor i p
      → C.lookup_class c ≡ true
      → index_find (workers_of p) (next_key p) ≡ none
      → Given d c ctor i t p s (submit C t p s)
  new-Given d c ctor i t p s h known e =
      let (w, s') = new_worker C c p.ctor s in
      let (here, grows) = grown d c ctor i p w h e in
      let len : length (index_update (workers_of p) (next_key p) w) ≡ suc (length (workers_of p)) =
        ap length grows
        ∙ omega (arith, length-append (workers_of p) ((0 + length (workers_of p), w) ∷ [])) in
      subst (Given d c ctor i t p s) (sym (submit-new C t p s c e h.class known)) (record {
        answer = ap submitted h.next;
        robin = record {
          size = h.size;
          class = h.class;
          args = h.args;
          numbered = subst (Numbered 0) (sym grows) (Numbered-snoc 0 (workers_of p) w h.numbered);
          many =
              ground
                (arith, len, here, h.next, mod_fact i d, mod-eq_of_lt {n = i} {m = suc d}, h.many);
          next = next_after d i (suc (next_key p)) p.size h.size (ap suc h.next);
        };
        done =
            ap (λ ws. (by_number ws, C.stack w t s')) grows
            ∙ ap (λ ws. (ws, C.stack w t s'))
                (by_number-snoc (workers_of p) (0 + length (workers_of p)) w)
            ∙ ap
                (λ a.
                  (let (w, s) = new_worker C c a s in
                    (by_number (workers_of p) ++ w ∷ [], C.stack w t s)))
                h.args
            ∙ sym
                (given_to d c ctor i t (by_number (workers_of p)) s none (elem d c ctor i p h ∙ e));
      })

  pub submit-Given :
      (d c : ℕ) (ctor : Option ℕ) (i : ℕ) (t : T) (p : Pool W) (s : S)
      → Robin d c ctor i p
      → C.lookup_class c ≡ true
      → Given d c ctor i t p s (submit C t p s)
  submit-Given d c ctor i t p s h known =
      elim (Option-cases (index_find (workers_of p) (next_key p))) [
        | inr (w, e) ↦ found-Given d c ctor i t p s w h e
        | inl e ↦ new-Given d c ctor i t p s h known e
      ]
