-- ===== src/Routine.antt =====
-- src/routine.c: the start of a thread by its creator, the routine that the thread runs, and the join.
-- A function is cut where the thread waits or where PHP code runs; what happens there is an argument.
-- The flags are the word of the monitor of the thread's object.
pub mod Flags
pub mod Effects
pub mod Steps
pub mod Invariant
pub mod Join
mod Tests
use Prim.Native.Nat.{bit_and, bit_or}
use ext_pmmpthread.Prelude.{
  ℕ, suc, Bool, true, false, not, ◌||◌, Option, none, some, ◌⊎◌, inl, inr, ◌==◌, if◌then◌else◌,
}
use ext_pmmpthread.Bits.{complement}
use ext_pmmpthread.Monitor.{width, started, running, joined, error, exit, await_join}

-- pmmpthread_monitor_check, _add and _remove, by a thread that can take the mutex
abbrev pub has : (flags state : ℕ) → Bool
has f s = not (bit_and s f == 0)

abbrev pub add : (flags state : ℕ) → ℕ
add f s = bit_or s f

abbrev pub remove : (flags state : ℕ) → ℕ
remove f s = bit_and s (complement width f)

-- Why a call is refused; each is an exception.
pub data Refused : Type 0 where
  not_creator already_started already_joined not_started no_resources create_failed : Refused

-- What `pthread_create` returns.
pub data Created : Type 0 where
  success eagain other : Created

-- `pmmpthread_start` up to `pthread_create`.
unfoldable pub start_begin : (in_creator : Bool) → ℕ → Refused ⊎ ℕ
start_begin in_creator s =
    if not in_creator
    then inl not_creator
    else if has started s
    then inl already_started
    else inr (add started s)

-- What follows: the creator waits until the thread is ready, or the start has failed.
unfoldable pub start_end : Created → ℕ → Option Refused × ℕ
start_end success s = (none, s)
start_end eagain s = (some no_resources, remove started s)
start_end other s = (some create_failed, remove started s)

-- `pmmpthread_join` up to the wait.
unfoldable pub join_begin : (in_creator : Bool) → ℕ → Refused ⊎ ℕ
join_begin in_creator s =
    if not in_creator
    then inl not_creator
    else if has joined s
    then inl already_joined
    else if not (has started s)
    then inl not_started
    else inr (add joined s)

-- What follows the synchronisation of the properties.
unfoldable pub join_end : ℕ → ℕ
join_end s = add exit s

-- What the `run` method comes to: it is not there, it is an internal function, it returns, it leaves an
-- exception, or the engine bails out of it.
pub data Outcome : Type 0 where
  no_run internal returned thrown bailed : Outcome

-- `pmmpthread_routine_run_function` up to the call; `none` is FAILURE.
unfoldable pub run_begin : ℕ → Option ℕ
run_begin s = if has error s then none else some (add running s)

abbrev pub failed : Outcome → Bool
failed thrown = true
failed bailed = true
failed _ = false

abbrev pub succeeded : Outcome → Bool
succeeded internal = true
succeeded returned = true
succeeded _ = false

-- Whether it returns SUCCESS, and the flags.
unfoldable pub run_end : Outcome → ℕ → Bool × ℕ
run_end o s = (succeeded o, remove running (if failed o then add error s else s))

-- Where the routine is. `entering` is before the thread's own `run`, `at_work` in it; a worker is in
-- `next_task` between tasks and in `at_task` while a task runs.
pub data Routine : Type 0 where
  absent startup entering at_work next_task at_task shutting awaiting cleaning exited : Routine

-- The thread's own `run` is called, or the routine bails out.
unfoldable pub enter_run : ℕ → Routine × ℕ
unfolding run_begin
enter_run s = elim (run_begin s) [ none ↦ (shutting, s) | some s' ↦ (at_work, s') ]

unfoldable pub leave_run : (worker : Bool) → Outcome → ℕ → Routine × ℕ
unfolding run_end
leave_run worker o s =
    let (ok, s) = run_end o s in
    (if not ok then shutting else if worker then next_task else shutting, s)

-- A task that is done. `ok` is what `pmmpthread_routine_run_function` returned for it.
unfoldable pub leave_task : (ok : Bool) → ℕ → Routine × ℕ
leave_task true s = (next_task, s)
leave_task false s = (shutting, add error s)

-- The shutdown functions have run.
unfoldable pub await : ℕ → Routine × ℕ
await s = (awaiting, add await_join s)

-- The guard of `Worker::stack`; `true` is the exception.
unfoldable pub stack_refused : (in_creator : Bool) → ℕ → Bool
stack_refused in_creator s = not in_creator || has (bit_or error (bit_or await_join joined)) s
