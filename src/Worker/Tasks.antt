-- ===== src/Worker/Tasks.antt =====
-- The order in which a worker of src/worker.c runs its tasks, and what it still reaches.
use Prim.Native.Nat.{bit_and}
use ext_pmmpthread.Prelude.{
  ℕ, zero, suc, ◌<◌, ◌≡◌, refl, ap, true, false, some, List, [], ◌∷◌, ◌++◌, length, ◌==◌, arith,
}
use ext_pmmpthread.Memory.{Ptr, null, Value, item, Mem, ok}
use ext_pmmpthread.Memory.Cells.{Holds, not_null, load-ok}
use ext_pmmpthread.Memory.Returns.{Returns, returns, bind}
use ext_pmmpthread.Queue.{Queue, Mode}
use ext_pmmpthread.Queue.Chain.{Cells, Chain, first_of, SameOutside}
use ext_pmmpthread.Queue.Refines.{IsQueue}
use ext_pmmpthread.Queue.Ends.{shift-cons}
use ext_pmmpthread.Monitor.{collect_garbage}
use ext_pmmpthread.Worker.{
  Worker, Next, task, forget_collected, take_task, next_task_round, walk, running_value,
  get_gc_extra,
}

-- The values of a queue's items.
abbrev pub values : Cells → List Value
values [] = []
values ((p, v) ∷ xs) = v ∷ values xs

walk-values :
    (k : ℕ) (m : Mem) (prev : Ptr) (xs : Cells)
    → Chain m prev xs null
    → length xs < k
    → walk k (first_of xs null) m ≡ ok (values xs) m
unfolding walk
walk-values zero m prev xs c h = absurd (omega arith)
walk-values (suc k) m prev [] c h = refl
walk-values (suc k) m prev ((p, v) ∷ xs) c h =
    rw (not_null c.0, load-ok c.0, walk-values k m p xs c.2 (omega arith), walk) refl

-- The task that runs, if there is one.
abbrev pub Running : Mem → Ptr → List Value → Type 0
Running m p [] = p ≡ null
Running m p (v ∷ []) = (n : Ptr) × (b : Ptr) × Holds m p (item n b v)
Running m p (v ∷ w ∷ vs) = false ≡ true

running-values :
    (m : Mem) (p : Ptr) (rs : List Value) → Running m p rs → running_value p m ≡ ok rs m
unfolding running_value
running-values m p [] h = rw h refl
running-values m p (v ∷ []) (n, b, h) = rw (not_null h, load-ok h, running_value) refl
running-values m p (v ∷ w ∷ vs) h = ground arith

-- The garbage collector is told of every task of the worker, each once: those that wait, in order,
-- the one that runs, and those that are done, given one round more than there are tasks in either
-- queue.
pub get_gc_extra-values :
    (m : Mem) (w : Worker) (xs gs : Cells) (rs : List Value) (fuel : ℕ)
    → IsQueue m w.queue xs
    → IsQueue m w.gc gs
    → Running m w.running rs
    → length xs < fuel
    → length gs < fuel
    → get_gc_extra true fuel w m ≡ ok (values xs ++ rs ++ values gs) m
unfolding get_gc_extra
get_gc_extra-values m w xs gs rs fuel q g r hx hg =
    rw
      (
        q.head,
        g.head,
        walk-values fuel m null xs q.chain hx,
        running-values m w.running rs r,
        walk-values fuel m null gs g.chain hg,
        get_gc_extra,
      )
      refl

-- The first task waiting is the one taken: it runs now, its item is kept, the others wait in order,
-- and no reference count changes.
pub record IsTaken (m : Mem) (w : Worker) (p : Ptr) (v : Value) (xs : Cells)
    (r : Next × (Worker × Queue)) (g : Mem) : Type 0 where
  pub next : r.0 ≡ task (some v)
  pub running : r.1.0.running ≡ p
  pub queue : IsQueue g r.1.0.queue xs
  pub gc : r.1.0.gc ≡ w.gc
  pub item : Running g r.1.0.running (v ∷ [])
  pub same : SameOutside ((p, v) ∷ xs) m g
  pub refs : (x : Value) → g.refs x ≡ m.refs x

-- While no collection is pending, a worker with tasks waiting takes the first of them: tasks run in
-- the order in which they were added. The rest stay in order, the item of the task that runs is
-- kept, and no reference count changes.
pub next_task-first :
    (m : Mem) (w : Worker) (cache : Queue) (p : Ptr) (v : Value) (xs : Cells)
    → bit_and w.flags collect_garbage ≡ 0
    → IsQueue m w.queue ((p, v) ∷ xs)
    → Returns (IsTaken m w p v xs) (next_task_round w cache m)
unfolding next_task_round forget_collected take_task
next_task-first m w cache p v xs idle q =
    let there : (w.queue.head == null) ≡ false = rw q.head (not_null q.chain.0) in
    let mode : Mode = record { want = true; free = false } in
    rw (idle, there, next_task_round)
      (bind (shift-cons m w.queue p v xs mode q (λ e. ground (arith, e))) λ r g t. returns (record {
        next = ap (λ o. task o) t.value;
        running = q.head;
        queue = t.queue;
        gc = refl;
        item = rw q.head (t.kept refl);
        same = t.same;
        refs = t.refs;
      }))
