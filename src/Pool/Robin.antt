-- ===== src/Pool/Robin.antt =====
-- The tasks of a pool go round its workers (src/classes/pool.c).
use ext_pmmpthread.Prelude.{
  ℕ, suc, ◌+◌, ◌%◌, ◌≡◌, refl, ◌∙◌, ap, true, Option, none, some, List, [], ◌∷◌, length, subst, leb,
  if◌then◌else◌, pos, arith,
}
use native.Mathlib.Nat.{mod-eq_of_lt}
use ext_pmmpthread.Pool.{
  or_else, construct, object, Calls, Submitted, submitted, Pool, workers_of, submit,
}
use ext_pmmpthread.Pool.Workers.{Numbered, by_number}
use ext_pmmpthread.Pool.Submit.{submit_all}
use ext_pmmpthread.Pool.Given.{Robin, give, submit-Given}

module _ {W T S : Type 0} (C : Calls W T S) where
  -- The tasks given one after another, from the `i`-th on.
  abbrev pub serve : (d c : ℕ) (ctor : Option ℕ) (i : ℕ) → List T → List W → S → List W × S
  serve d c ctor i [] ws s = (ws, s)
  serve d c ctor i (t ∷ ts) ws s =
      let r = give C d c ctor i t ws s in serve d c ctor (suc i) ts r.0 r.1

  -- The numbers of the workers that the tasks go to, from the `i`-th submission on.
  abbrev pub turns : (d i : ℕ) → List T → List Submitted
  turns d i [] = []
  turns d i (t ∷ ts) = submitted (i % suc d) ∷ turns d (suc i) ts

  -- What the submissions come to.
  record AllGiven (d c : ℕ) (ctor : Option ℕ) (i : ℕ) (ts : List T) (p : Pool W) (s : S)
      (r : List Submitted × (Pool W × S)) : Type 0 where
    answers : r.0 ≡ turns d i ts
    robin : Robin C d c ctor (i + length ts) r.1.0
    done : (by_number (workers_of r.1.0), r.1.1) ≡ serve d c ctor i ts (by_number (workers_of p)) s

  submit_all-AllGiven :
      (d c : ℕ) (ctor : Option ℕ) (i : ℕ) (ts : List T) (p : Pool W) (s : S)
      → Robin C d c ctor i p
      → C.lookup_class c ≡ true
      → AllGiven d c ctor i ts p s (submit_all C ts p s)
  submit_all-AllGiven d c ctor i [] p s h known = record {
    answers = refl;
    robin = subst (λ j. Robin C d c ctor j p) (omega arith) h;
    done = refl;
  }
  submit_all-AllGiven d c ctor i (t ∷ ts) p s h known =
      let r = submit C t p s in
      let first = submit-Given C d c ctor i t p s h known in
      let rest = submit_all-AllGiven d c ctor (suc i) ts r.1.0 r.1.1 first.robin known in
      record {
        answers =
            ap (◌∷ (submit_all C ts r.1.0 r.1.1).0) first.answer
            ∙ ap (submitted (i % suc d) ∷◌) rest.answers;
        robin =
            subst (λ j. Robin C d c ctor j (submit_all C ts r.1.0 r.1.1).1.0) (omega arith)
              rest.robin;
        done = rest.done ∙ ap (λ q. serve d c ctor (suc i) ts q.0 q.1) first.done;
      }

  kept_ctor : (a : Option ℕ) → elim a as (λ _. Option ℕ) [ none ↦ none | some x ↦ some x ] ≡ a
  kept_ctor none = refl
  kept_ctor (some x) = refl

  -- In a new pool whose size is positive and whose class can be found, the tasks submitted one after
  -- another go round: the i-th, counted from 0, is stacked on the worker `i % size`, which is
  -- constructed and started just before if it is not there yet. The answers are these numbers, and
  -- the workers that there are in the end, by number, and all that has been asked of them are what
  -- giving out the tasks in this way comes to. There are as many workers as tasks, at most `size`,
  -- and their keys count up from 0.
  pub round_robin :
      (d : ℕ) (clazz ctor : Option ℕ) (ts : List T) (s : S)
      → C.lookup_class (or_else clazz C.worker_class) ≡ true
      → let p = (construct C (pos (suc d)) clazz ctor (object W)).1 in
        let (ids, (p', s')) = submit_all C ts p s in
        (ids ≡ turns d 0 ts)
        × ((by_number (workers_of p'), s') ≡ serve d (or_else clazz C.worker_class) ctor 0 ts [] s)
        × (length (workers_of p') ≡ (if leb (length ts) (suc d) then length ts else suc d))
        × Numbered 0 (workers_of p')
  unfolding construct
  round_robin d clazz ctor ts s known =
      let p = (construct C (pos (suc d)) clazz ctor (object W)).1 in
      let c = or_else clazz C.worker_class in
      let fresh : Robin C d c ctor 0 p = record {
        size = refl;
        class = refl;
        args = kept_ctor ctor;
        numbered = tt;
        many = ground arith;
        next = ground (arith, mod-eq_of_lt {n = 0} {m = suc d});
      } in
      let all = submit_all-AllGiven d c ctor 0 ts p s fresh known in
      (all.answers, all.done, ground (arith, all.robin.many), all.robin.numbered)
