-- ===== src/Pool/Submit.antt =====
-- Submissions, `Pool::submit` of src/classes/pool.c: to a worker that is there, and to a new one.
use ext_pmmpthread.Prelude.{ℕ, suc, ◌≡◌, ◌∙◌, ap, true, none, some, List, [], ◌∷◌}
use ext_pmmpthread.Pool.{
  index_find, index_update, Calls, Submitted, submitted, Pool, workers_of, next_key, new_worker,
  select, create_worker, add_worker, give_task, submit,
}

module _ {W T S : Type 0} (C : Calls W T S) where
  -- The tasks submitted one after another: what is returned or thrown for each, and the pool.
  abbrev pub submit_all : List T → Pool W → S → List Submitted × (Pool W × S)
  submit_all [] p s = ([], (p, s))
  submit_all (t ∷ ts) p s =
      let (r, (p, s)) = submit C t p s in let (rs, end) = submit_all ts p s in (r ∷ rs, end)

  pub submit-found :
      (t : T) (p : Pool W) (s : S) (w : W)
      → index_find (workers_of p) (next_key p) ≡ some w
      → submit C t p s ≡ (
        submitted (next_key p),
        (record p { workers = some (workers_of p); last = suc (next_key p) }, C.stack w t s),
      )
  unfolding submit select create_worker add_worker
  submit-found t p s w e =
      let q = record p { workers = some (workers_of p); last = next_key p } in
      ap (λ o. give_task C t (select C o (next_key p) q s)) e

  pub submit-new :
      (t : T) (p : Pool W) (s : S) (c : ℕ)
      → index_find (workers_of p) (next_key p) ≡ none
      → p.class ≡ some c
      → C.lookup_class c ≡ true
      → let (w, s') = new_worker C c p.ctor s in
        submit C t p s ≡ (
          submitted (next_key p),
          (
            record p {
              workers = some (index_update (workers_of p) (next_key p) w);
              last = suc (next_key p);
            },
            C.stack w t s',
          ),
        )
  unfolding submit select create_worker add_worker
  submit-new t p s c e v l =
      let q = record p { workers = some (workers_of p); last = next_key p } in
      ap (λ o. give_task C t (select C o (next_key p) q s)) e
      ∙ ap (λ o. give_task C t (create_worker C o (next_key p) q s)) v
      ∙ ap (λ b. give_task C t (add_worker C b c (next_key p) q s)) l
