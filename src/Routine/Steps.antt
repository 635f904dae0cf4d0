-- ===== src/Routine/Steps.antt =====
-- The creator of a thread and the thread, in any order (src/routine.c).
use ext_pmmpthread.Prelude.{ℕ, suc, ◌≡◌, Bool, true, false, none, some, inr}
use ext_pmmpthread.Monitor.{joined, exit, await_join, nothing}
use ext_pmmpthread.Routine.{
  has, Refused, Created, success, Outcome, start_begin, start_end, join_begin, join_end, Routine,
  absent, startup, entering, at_work, next_task, at_task, shutting, awaiting, cleaning, exited,
  enter_run, leave_run, leave_task, await, stack_refused,
}

-- Where the creator is: before `start`, before `pthread_create`, in the wait until the thread is
-- ready, between the calls, in the wait of `join`, before the synchronisation of the properties, in
-- `pthread_join`, or after it.
pub data Creator : Type 0 where
  idle creating waiting_ready free joining syncing reaping done : Creator

-- `ready` is the flag of the monitor `ready`; `tasks` is the number of tasks in a worker's queue.
pub record System : Type 0 where
  pub creator : Creator
  pub routine : Routine
  pub flags : ℕ
  pub ready : Bool
  pub tasks : ℕ

module _ (worker started_up : Bool) where
  -- `started_up` is whether `pmmpthread_prepared_startup` returns SUCCESS. A wait goes on once its flag
  -- is set; a refused call changes nothing and is no step. A worker's `next_task` waits while there is
  -- no task and the worker is not joined.
  pub data Step (s : System) : System → Type 0 where
    start :
        (f : ℕ)
        → s.creator ≡ idle
        → start_begin true s.flags ≡ inr f
        → Step s (record s { creator = creating; flags = f })
    created :
        (f : ℕ)
        → s.creator ≡ creating
        → start_end success s.flags ≡ (none, f)
        → Step s (record s { creator = waiting_ready; routine = startup; flags = f; ready = false })
    not_created :
        (c : Created) (r : Refused) (f : ℕ)
        → s.creator ≡ creating
        → start_end c s.flags ≡ (some r, f)
        → Step s (record s { creator = idle; flags = f })
    ready_seen : s.creator ≡ waiting_ready → s.ready ≡ true → Step s (record s { creator = free })
    stack :
        s.creator ≡ free
        → worker ≡ true
        → stack_refused true s.flags ≡ false
        → Step s (record s { tasks = suc s.tasks })
    join :
        (f : ℕ)
        → s.creator ≡ free
        → join_begin true s.flags ≡ inr f
        → Step s (record s { creator = joining; flags = f })
    join_woken :
        s.creator ≡ joining
        → has await_join s.flags ≡ true
        → Step s (record s { creator = syncing })
    synced : s.creator ≡ syncing → Step s (record s { creator = reaping; flags = join_end s.flags })
    reaped : s.creator ≡ reaping → s.routine ≡ exited → Step s (record s { creator = done })
    starts_up :
        s.routine ≡ startup
        → started_up ≡ true
        → Step s (record s { routine = entering; ready = true })
    no_startup : s.routine ≡ startup → started_up ≡ false → Step s (record s { routine = exited })
    enters :
        (r : Routine) (f : ℕ)
        → s.routine ≡ entering
        → enter_run s.flags ≡ (r, f)
        → Step s (record s { routine = r; flags = f })
    leaves :
        (o : Outcome) (r : Routine) (f : ℕ)
        → s.routine ≡ at_work
        → leave_run worker o s.flags ≡ (r, f)
        → Step s (record s { routine = r; flags = f })
    takes :
        (n : ℕ)
        → s.routine ≡ next_task
        → s.tasks ≡ suc n
        → Step s (record s { routine = at_task; tasks = n })
    no_more :
        s.routine ≡ next_task
        → s.tasks ≡ 0
        → has joined s.flags ≡ true
        → Step s (record s { routine = shutting })
    task_done :
        (ok : Bool) (r : Routine) (f : ℕ)
        → s.routine ≡ at_task
        → leave_task ok s.flags ≡ (r, f)
        → Step s (record s { routine = r; flags = f })
    shuts :
        (r : Routine) (f : ℕ)
        → s.routine ≡ shutting
        → await s.flags ≡ (r, f)
        → Step s (record s { routine = r; flags = f })
    exit_seen :
        s.routine ≡ awaiting → has exit s.flags ≡ true → Step s (record s { routine = cleaning })
    cleaned : s.routine ≡ cleaning → Step s (record s { routine = exited })

  -- A new thread object, to whose queue tasks may have been added before the start.
  abbrev pub new : ℕ → System
  new n = record { creator = idle; routine = absent; flags = nothing; ready = false; tasks = n }

  pub data Reach (n : ℕ) : System → Type 0 where
    initial : Reach n (new n)
    later : {s u : System} → Reach n s → Step s u → Reach n u
