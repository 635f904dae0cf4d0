-- ===== src/Pool/Tests.antt =====
-- The theorems about src/classes/pool.c at concrete pools, and runs of the code.
use ext_pmmpthread.Prelude.{
  ℕ, ◌≡◌, refl, true, none, some, List, [], ◌∷◌, ◌++◌, length, leb, if◌then◌else◌, ◌==◌, ℤ, pos,
  arith,
}
use ext_pmmpthread.Pool.{
  Calls, Pool, Array, submitted, no_worker, object, construct, workers_of, submit, submit_to,
  shutdown, resize, collect,
}
use ext_pmmpthread.Pool.Workers.{Numbered, by_number}
use ext_pmmpthread.Pool.Submit.{submit_all}
use ext_pmmpthread.Pool.Robin.{turns, serve, round_robin}
use ext_pmmpthread.Pool.Resize.{shut_last_first, resize_lem}
use ext_pmmpthread.Pool.Shutdown.{shutdown_submit-Endless}

-- Workers and tasks are numbers, and the state lists what is asked of the workers: a new worker is
-- named by how much has been asked before.
abbrev calls : Calls ℕ ℕ (List (ℕ × ℕ))
calls = record {
  worker_class = 7;
  extends_worker = λ c. c == 7;
  lookup_class = λ c. c == 7;
  object_init = λ c s. (length s, s);
  has_constructor = λ w. true;
  call_constructor = λ w args s. s ++ (w, 100) ∷ [];
  start = λ w options s. s ++ (w, options) ∷ [];
  stack = λ w t s. s ++ (w, t) ∷ [];
  shutdown = λ w s. s ++ (w, 200) ∷ [];
  worker_collect_tasks = λ f w s. (2, s);
}

abbrev three : List ℕ
three = 11 ∷ 12 ∷ 13 ∷ []

round_robin_example :
    let p = (construct calls (pos 2) none none (object ℕ)).1 in
    let (ids, (p', s')) = submit_all calls three p [] in
    (ids ≡ turns calls 1 0 three)
    × ((by_number (workers_of p'), s') ≡ serve calls 1 7 none 0 three [] [])
    × (length (workers_of p') ≡ (if leb (length three) 2 then length three else 2))
    × Numbered 0 (workers_of p')
round_robin_example = round_robin calls 1 none none three [] refl

abbrev pool : ℤ → ℕ → Array ℕ → Pool ℕ
pool size last ws = record {
  size = size;
  class = some 7;
  workers = some ws;
  ctor = none;
  last = last;
}

abbrev workers : Array ℕ
workers = (0, 40) ∷ (1, 41) ∷ (2, 42) ∷ []

resize_lem_example :
    resize calls 3 (pos 1) (pool (pos 5) 3 workers) []
    ≡ some (pool (pos 1) 3 ((0, 40) ∷ []), shut_last_first calls ((1, 41) ∷ (2, 42) ∷ []) [])
resize_lem_example =
    resize_lem calls 3 1 (pool (pos 5) 3 workers) workers [] refl (refl, (refl, (refl, tt)))
      (omega arith)

shut_down_last_first :
    shut_last_first calls ((1, 41) ∷ (2, 42) ∷ []) [] ≡ (42, 200) ∷ (41, 200) ∷ []
shut_down_last_first = refl

shutdown_submit-Endless_example :
    let (q, u) = shutdown calls (pool (pos 5) 3 workers) [] in
    let (r, (q', u')) = submit calls 14 q u in
    (r ≡ submitted 3) × (resize calls 1000 (pos 0) q' u' ≡ none)
shutdown_submit-Endless_example =
    shutdown_submit-Endless calls 1000 7 5 14 (pool (pos 5) 3 workers) workers [] refl refl refl
      refl (λ e. ground arith) (omega arith)

-- A task for a worker that is not there is refused.
refused : (submit_to calls 5 14 (pool (pos 5) 3 workers) []).0 ≡ no_worker
unfolding submit_to
refused = refl

collected : (collect calls none (pool (pos 5) 3 workers) []).0 ≡ 6
unfolding collect
collected = refl
