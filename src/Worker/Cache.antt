-- ===== src/Worker/Cache.antt =====
-- What a worker of src/worker.c reports when tasks are collected, and how its thread's cache of done
-- tasks follows.
use Prim.Native.Nat.{bit_and, bit_or}
use ext_pmmpthread.Prelude.{
  ℕ, zero, suc, ◌+◌, ◌%◌, ◌<◌, ◌≤◌, ◌≡◌, ◌≢◌, refl, sym, subst, Bool, true, false, [], ◌∷◌, length,
  drop, ◌==◌, ==_ne, ==_self, if◌then◌else◌, arith,
}
use ext_pmmpthread.Bits.{complement}
use ext_pmmpthread.Memory.{Value, Mem}
use ext_pmmpthread.Memory.Returns.{Returns, returns, bind}
use ext_pmmpthread.Queue.{Queue, long_mod, Mode}
use ext_pmmpthread.Queue.Chain.{Cells}
use ext_pmmpthread.Queue.Refines.{IsQueue}
use ext_pmmpthread.Queue.Ends.{shift-cons}
use ext_pmmpthread.Queue.Clean.{held}
use ext_pmmpthread.Monitor.{collect_garbage, width}
use ext_pmmpthread.Worker.{
  Worker, collect_loop, collect_tasks, running_tasks, discard_loop, forget_collected,
}
use ext_pmmpthread.Worker.Collect.{accepted, Collected, left_held, collect_loop-Collected}

-- The tasks that were taken are gone from the queue of done tasks, and counted for the worker's
-- thread, which is told of them by a flag exactly when there are some; the number returned is that
-- of the tasks waiting, running and done.
pub record IsCollected (w : Worker) (taken : ℕ) (xs left : Cells) (r : Worker × ℕ) (g : Mem)
    : Type 0 where
  pub gc : IsQueue g r.0.gc left
  pub queue : r.0.queue ≡ w.queue
  pub running : r.0.running ≡ w.running
  pub tasks_collected :
      r.0.tasks_collected
      ≡ (if taken == 0 then w.tasks_collected else (w.tasks_collected + taken) % long_mod)
  pub flags : r.0.flags ≡ (if taken == 0 then w.flags else bit_or w.flags collect_garbage)
  pub returned : r.1 ≡ ((length xs + length left) + running_tasks w.running) % long_mod

report_lem :
    (w : Worker) (gc : Queue) (c : ℕ) (xs left : Cells) (m g : Mem)
    → IsQueue m w.queue xs
    → IsQueue g gc left
    → ((w.queue.size + gc.size) + running_tasks w.running) % long_mod
      ≡ ((length xs + length left) + running_tasks w.running) % long_mod
report_lem w gc c xs left m g q is = omega (arith, q.size, is.size)

-- Collecting takes the longest prefix of the done tasks on which the callback agrees, counts it, and
-- reports how many tasks the worker still has, given one round more than there are done tasks and a
-- reference for each of them.
pub collect_tasks-IsCollected :
    (fuel : ℕ) (collect : ℕ → Value → Bool) (m : Mem) (w : Worker) (xs gs : Cells)
    → IsQueue m w.queue xs
    → IsQueue m w.gc gs
    → ((x : Value) → held x gs ≤ m.refs x)
    → length gs < fuel
    → Returns
        (IsCollected w (accepted collect 0 gs) xs (drop (accepted collect 0 gs) gs))
        (collect_tasks true fuel collect w m)
unfolding collect_tasks
collect_tasks-IsCollected fuel collect m w xs gs q d h l =
    bind
      (subst (λ p. Returns (Collected collect 0 gs) (collect_loop fuel collect p w.gc 0 m))
        (sym d.head) (collect_loop-Collected fuel collect m w.gc gs 0 d h l))
      λ r g c.
        let taken : r.1 ≡ accepted collect 0 gs = omega (arith, c.1) in
        returns (record {
          gc = ground (arith, c.0);
          queue = ground arith;
          running = ground arith;
          tasks_collected = ground (arith, taken);
          flags = ground (arith, taken);
          returned = report_lem w r.0 r.1 xs (drop (accepted collect 0 gs) gs) m g q c.0;
        })

discard-drop :
    (n : ℕ) (m : Mem) (q : Queue) (xs : Cells)
    → IsQueue m q xs
    → ((x : Value) → held x xs ≤ m.refs x)
    → n ≤ length xs
    → Returns (λ r g. IsQueue g r (drop n xs)) (discard_loop n q m)
unfolding discard_loop
discard-drop zero m q xs is h l = returns is
discard-drop (suc n) m q [] is h l = absurd (omega arith)
discard-drop (suc n) m q ((p, v) ∷ xs) is h l =
    let mode : Mode = record { want = false; free = true } in
    let one : 0 < m.refs v = ground (arith, h v, ==_self v) in
    bind (shift-cons m q p v xs mode is (λ _. one))
      λ r g t. discard-drop n g r.queue xs t.queue (left_held m g p v xs h t.refs) (omega arith)

-- The cache has lost its first `taken` tasks, and nothing is left to tell.
pub record IsForgotten (w : Worker) (left : Cells) (r : Worker × Queue) (g : Mem) : Type 0 where
  pub cache : IsQueue g r.1 left
  pub tasks_collected : r.0.tasks_collected ≡ 0
  pub flags : r.0.flags ≡ bit_and w.flags (complement width collect_garbage)
  pub queue : r.0.queue ≡ w.queue
  pub gc : r.0.gc ≡ w.gc
  pub running : r.0.running ≡ w.running

-- The worker's thread follows a collection: as many tasks as were collected leave the front of its
-- cache of done tasks, the count and the flag are cleared, and the worker is otherwise as it was. The
-- cache must have that many tasks, and a reference for each of its items.
pub forget_collected-IsForgotten :
    (m : Mem) (w : Worker) (cache : Queue) (xs : Cells)
    → bit_and w.flags collect_garbage ≢ 0
    → IsQueue m cache xs
    → ((x : Value) → held x xs ≤ m.refs x)
    → w.tasks_collected ≤ length xs
    → Returns (IsForgotten w (drop w.tasks_collected xs)) (forget_collected w cache m)
unfolding forget_collected
forget_collected-IsForgotten m w cache xs set is h l =
    rw (==_ne set, forget_collected)
      (bind (discard-drop w.tasks_collected m cache xs is h l) λ r g c. returns (record {
        cache = c;
        tasks_collected = refl;
        flags = refl;
        queue = refl;
        gc = refl;
        running = refl;
      }))
