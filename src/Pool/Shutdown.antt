-- ===== src/Pool/Shutdown.antt =====
-- The shutdown of a pool's workers (`Pool::shutdown` of src/classes/pool.c), and the pool after it.
use ext_pmmpthread.Prelude.{
  ℕ, ◌<◌, ◌≡◌, refl, sym, ◌∙◌, ap, subst, inr, none, some, [], ◌∷◌, true, pos, arith, ◌≢◌,
}
use ext_pmmpthread.Pool.{
  Array, index_find, Calls, Submitted, submitted, Pool, next_key, new_worker, submit, shutdown,
  shutdown_loop, resize,
}
use ext_pmmpthread.Pool.Submit.{submit-new}
use ext_pmmpthread.Pool.Resize.{resize-Endless}

module _ {W T S : Type 0} (C : Calls W T S) where
  -- The keys of an array of one worker.
  alone : (k : ℕ) (w : W) → k ≢ 0 → index_find ((k, w) ∷ []) 0 ≡ none
  alone k w ne = ground arith

  shutdown-some :
      (p : Pool W) (ws : Array W) (s : S)
      → p.workers ≡ some ws
      → shutdown C p s ≡ (record p { workers = some [] }, shutdown_loop C ws s)
  unfolding shutdown
  shutdown-some p ws s e =
      ap
        (λ o. elim o as (λ _. Pool W × S) [
          | none ↦ (p, s)
          | some ws ↦ (record p { workers = some [] }, shutdown_loop C ws s)
        ])
        e

  -- What a submission and a resize to 0 after it come to.
  abbrev After : ℕ → Pool W → Submitted × (Pool W × S) → Type 0
  After fuel p (r, (q, u)) = (r ≡ submitted p.last) × (resize C fuel (pos 0) q u ≡ none)

  abbrev Stuck : ℕ → T → Pool W → Pool W × S → Type 0
  Stuck fuel t p (q, u) = After fuel p (submit C t q u)

  -- After a shutdown the pool has no workers but goes on counting: the next task of a pool that has
  -- counted to a worker other than 0, and not to its size, goes to a new worker of that key, and then
  -- no resize to 0 ever ends.
  pub shutdown_submit-Endless :
      (fuel c n : ℕ) (t : T) (p : Pool W) (ws : Array W) (s : S)
      → p.workers ≡ some ws
      → p.class ≡ some c
      → C.lookup_class c ≡ true
      → p.size ≡ pos n
      → p.last ≢ 0
      → p.last < n
      → let (q, u) = shutdown C p s in
        let (r, (q', u')) = submit C t q u in
        (r ≡ submitted p.last) × (resize C fuel (pos 0) q' u' ≡ none)
  shutdown_submit-Endless fuel c n t p ws s some_workers class known size ne l =
      let q = record p { workers = some [] } in
      let (w, u) = new_worker C c p.ctor (shutdown_loop C ws s) in
      let key : next_key q ≡ p.last = rw size (ground arith) in
      subst (Stuck fuel t p) (sym (shutdown-some p ws s some_workers)) (
        subst (After fuel p) (sym (submit-new C t q (shutdown_loop C ws s) c refl class known)) (
          ap submitted key,
          resize-Endless C fuel (pos 0) _ ((next_key q, w) ∷ []) (C.stack w t u) refl
              (inr (0, (refl, (ground arith, alone (next_key q) w (λ z. ne (sym key ∙ z)))))),
        ))
