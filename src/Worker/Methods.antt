-- ===== src/Worker/Methods.antt =====
-- src/classes/worker.c: the methods of workers, over the functions of src/worker.c and the guards that
-- the creator of a worker passes. `none` is an exception; the flags of the worker are the word of the
-- monitor of its object.
use ext_pmmpthread.Prelude.{ℕ, Bool, true, not, Option, none, some, if◌then◌else◌}
use ext_pmmpthread.Memory.{Ptr, Value, Cmd, pure, ◌>>=◌}
use ext_pmmpthread.Worker.{Worker, Added, add_task, dequeue_task, task_queue_size, collect_tasks}
use ext_pmmpthread.Routine.{stack_refused}

unfoldable pub stack : (in_creator got : Bool) → (fresh : Ptr) → Worker → Value → Cmd (Option Added)
unfolding add_task stack_refused
stack in_creator got fresh w v =
    if stack_refused in_creator w.flags
    then pure none
    else (do r ← add_task got fresh w v; pure (some r))

unfoldable pub unstack :
    (in_creator got : Bool) → Worker → Cmd (Option (Worker × (ℕ × Option Value)))
unfolding dequeue_task
unstack in_creator got w =
    if not in_creator then pure none else (do r ← dequeue_task got w; pure (some r))

unfoldable pub get_stacked : (got : Bool) → Worker → ℕ
unfolding task_queue_size
get_stacked got w = task_queue_size got w

-- The default collector, which has every task removed.
unfoldable pub collector : Value → Bool
collector v = true

abbrev pub collector_or : Option (ℕ → Value → Bool) → ℕ → Value → Bool
collector_or none round v = collector v
collector_or (some f) round v = f round v

-- Called without an argument, the method takes the collector of the worker's class.
unfoldable pub collect :
    (in_creator got : Bool)
    → (fuel : ℕ) → Option (ℕ → Value → Bool)
    → Worker
    → Cmd (Option (Worker × ℕ))
unfolding collect_tasks
collect in_creator got fuel f w =
    if not in_creator
    then pure none
    else (do r ← collect_tasks got fuel (collector_or f) w; pure (some r))
