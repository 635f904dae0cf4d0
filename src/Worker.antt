-- ===== src/Worker.antt =====
-- src/worker.c: the tasks of a worker. `got` is what `pmmpthread_monitor_lock` returned for the
-- worker's monitor, which is held through each function; `flags` is the state of that monitor, and
-- `pmmpthread_monitor_add`, `_remove` and `_check` by the thread that holds it come to operations on
-- the flags. The monitor's waiters are told of a change where `notified` says so.
pub mod Tasks
pub mod Collect
pub mod Cache
pub mod Methods
mod Tests
use Prim.Native.Nat.{bit_and, bit_or}
use ext_pmmpthread.Prelude.{
  ℕ, zero, suc, ◌+◌, ◌-◌, ◌%◌, Bool, true, false, not, Option, none, some, List, [], ◌∷◌, ◌++◌,
  ◌==◌, if◌then◌else◌,
}
use ext_pmmpthread.Bits.{complement}
use ext_pmmpthread.Memory.{Ptr, null, Value, Item, Cmd, out_of_fuel, pure, ◌>>=◌, ◌>>◌, load}
use ext_pmmpthread.Queue.{Queue, empty, long_mod, Mode, Removed, clean, push, push_new, shift}
use ext_pmmpthread.Monitor.{width, collect_garbage, joined}

-- pmmpthread_worker_data_t, and the flags of its monitor
pub record Worker : Type 0 where
  pub queue : Queue
  pub gc : Queue
  pub running : Ptr
  pub tasks_collected : ℕ
  pub flags : ℕ

-- ecalloc, then the monitor is set.
unfoldable pub data_alloc : (flags : ℕ) → Worker
data_alloc flags = record {
  queue = empty;
  gc = empty;
  running = null;
  tasks_collected = 0;
  flags = flags;
}

unfoldable pub task_queue_size : (got : Bool) → Worker → ℕ
task_queue_size got w = if got then w.queue.size else 0

-- Whether the assertion that no task runs holds. The fuel is for the two loops; the struct itself,
-- which is freed next, is not on the heap of items.
unfoldable pub data_free : (got : Bool) → (fuel : ℕ) → Worker → Cmd Bool
data_free false fuel w = pure true
data_free true fuel w = do clean fuel w.queue; clean fuel w.gc; pure (w.running == null)

pub record Added : Type 0 where
  pub worker : Worker
  pub notified : Bool
  pub returned : ℕ

-- The size returned is -1 where the lock is not taken.
unfoldable pub add_task : (got : Bool) → (fresh : Ptr) → Worker → Value → Cmd Added
add_task false fresh w v = pure (record { worker = w; notified = false; returned = long_mod - 1 })
add_task true fresh w v = do
  q ← push_new fresh w.queue v
  pure (record { worker = record w { queue = q }; notified = w.queue.size == 0; returned = q.size })

-- The worker, which notifies, and the cache of done tasks of the worker's thread. The lock is
-- asserted to be taken.
unfoldable pub add_garbage :
    (fresh : Ptr) → Worker → (done_tasks_cache : Queue) → Value → Cmd (Worker × Queue)
add_garbage fresh w cache v = do
  gc ← push w.gc w.running
  cache ← push_new fresh cache v
  pure (record w { gc = gc; running = null }, cache)

-- The size returned, and the value, which the caller's zval receives.
unfoldable pub dequeue_task : (got : Bool) → Worker → Cmd (Worker × (ℕ × Option Value))
dequeue_task false w = pure (w, (0, none))
dequeue_task true w = do
  r ← shift w.queue (record { want = true; free = true })
  pure (record w { queue = r.queue }, (r.returned, r.value))

-- The loop over the tasks that are done: `collect` is the callback, told which round it is in. It does
-- not touch the worker; and that the local properties of each task are synchronised before it is
-- called, which leaves the worker's queues alone as well, is left out.
unfoldable pub collect_loop :
    ℕ → (collect : ℕ → Value → Bool) → Ptr → Queue → (collected : ℕ) → Cmd (Queue × ℕ)
collect_loop zero collect p gc n = λ _. out_of_fuel
collect_loop (suc k) collect p gc n = if p == null then pure (gc, n) else do
  i ← load p
  elim (collect n i.value) [
    | false ↦ pure (gc, n)
    | true ↦ (do
      r ← shift gc (record { want = false; free = true })
      collect_loop k collect i.next r.queue (suc n))
  ]

abbrev pub running_tasks : Ptr → ℕ
running_tasks p = if p == null then 0 else 1

abbrev pub collected : ℕ → Worker → Worker
collected n w = if n == 0 then w else record w {
  tasks_collected = (w.tasks_collected + n) % long_mod;
  flags = bit_or w.flags collect_garbage;
}

unfoldable pub collect_tasks :
    (got : Bool) → (fuel : ℕ) → (collect : ℕ → Value → Bool) → Worker → Cmd (Worker × ℕ)
unfolding collect_loop
collect_tasks false fuel collect w = pure (w, 0)
collect_tasks true fuel collect w = do
  r ← collect_loop fuel collect w.gc.head w.gc 0
  pure (
    collected r.1 (record w { gc = r.0 }),
    ((w.queue.size + r.0.size) + running_tasks w.running) % long_mod,
  )

-- What a round of the loop of `pmmpthread_worker_next_task` comes to: a task, PMMPTHREAD_MONITOR_JOINED,
-- or a wait, after which another round follows.
pub data Next : Type 0 where
  task : Option Value → Next
  no_more waits : Next

unfoldable pub discard_loop : ℕ → Queue → Cmd Queue
discard_loop zero cache = pure cache
discard_loop (suc n) cache = do
  r ← shift cache (record { want = false; free = true })
  discard_loop n r.queue

-- The tasks that the parent has collected leave the cache of done tasks.
unfoldable pub forget_collected : Worker → Queue → Cmd (Worker × Queue)
unfolding discard_loop
forget_collected w cache = if bit_and w.flags collect_garbage == 0 then pure (w, cache) else do
  cache ← discard_loop w.tasks_collected cache
  pure (
    record w { tasks_collected = 0; flags = bit_and w.flags (complement width collect_garbage) },
    cache,
  )

unfoldable pub take_task : Worker → Queue → Cmd (Next × (Worker × Queue))
take_task w cache =
    if w.queue.head == null
    then pure ((if bit_and w.flags joined == 0 then waits else no_more), (w, cache))
    else do
      r ← shift w.queue (record { want = true; free = false })
      pure (task r.value, (record w { running = w.queue.head; queue = r.queue }, cache))

unfoldable pub next_task_round : Worker → (done_tasks_cache : Queue) → Cmd (Next × (Worker × Queue))
unfolding forget_collected take_task
next_task_round w cache = do r ← forget_collected w cache; take_task r.0 r.1

-- The values from an item on.
unfoldable pub walk : ℕ → Ptr → Cmd (List Value)
walk zero p = λ _. out_of_fuel
walk (suc k) p =
    if p == null then pure [] else do i ← load p; vs ← walk k i.next; pure (i.value ∷ vs)

unfoldable pub running_value : Ptr → Cmd (List Value)
running_value p = if p == null then pure [] else do i ← load p; pure (i.value ∷ [])

-- The values that are reachable through the worker.
unfoldable pub get_gc_extra : (got : Bool) → (fuel : ℕ) → Worker → Cmd (List Value)
unfolding walk running_value
get_gc_extra false fuel w = pure []
get_gc_extra true fuel w = do
  qs ← walk fuel w.queue.head
  rs ← running_value w.running
  gs ← walk fuel w.gc.head
  pure (qs ++ rs ++ gs)

-- The tasks whose local properties are synchronised, in order, or `none` for FAILURE.
unfoldable pub sync_collectable_tasks :
    (got : Bool) → (fuel : ℕ) → Worker → Cmd (Option (List Value))
unfolding walk
sync_collectable_tasks false fuel w = pure none
sync_collectable_tasks true fuel w = do gs ← walk fuel w.gc.head; pure (some gs)
