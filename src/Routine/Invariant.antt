-- ===== src/Routine/Invariant.antt =====
-- What holds between the steps of a creator and its thread (src/routine.c).
use ext_pmmpthread.Prelude.{ℕ, ◌≡◌, Bool, true, false, ◌||◌, not, ◌⊎◌, arith}
use ext_pmmpthread.Monitor.{joined, exit, await_join}
use ext_pmmpthread.Routine.{has, Routine, absent, startup, awaiting, cleaning, exited}
use ext_pmmpthread.Routine.Effects.{
  start_ok-flags, start_begin-Keeps, start_failed-Keeps, enter_run-Keeps, leave_run-Keeps,
  leave_task-Keeps, join_begin-flags, join_end-flags, await-flags,
}
use ext_pmmpthread.Routine.Steps.{
  Creator, idle, creating, free, joining, syncing, reaping, done, System, Step, Reach, initial,
  later, start, created, not_created, ready_seen, stack, join, join_woken, synced, reaped,
  starts_up, no_startup, enters, leaves, takes, no_more, task_done, shuts, exit_seen, cleaned,
}

-- Whether the routine has come to the wait for its creator.
abbrev pub finished : Routine → Bool
finished awaiting = true
finished cleaning = true
finished exited = true
finished _ = false

-- Whether the thread may go on after that wait.
abbrev pub released : Routine → Bool
released cleaning = true
released exited = true
released _ = false

abbrev pub in_join : Creator → Bool
in_join joining = true
in_join syncing = true
in_join reaping = true
in_join done = true
in_join _ = false

abbrev pub before_create : Creator → Bool
before_create idle = true
before_create creating = true
before_create _ = false

abbrev pub past_sync : Creator → Bool
past_sync reaping = true
past_sync done = true
past_sync _ = false

abbrev pub is_absent : Routine → Bool
is_absent absent = true
is_absent _ = false

abbrev pub is_startup : Routine → Bool
is_startup startup = true
is_startup _ = false

pub record Inv (s : System) : Type 0 where
  pub joined_flag : has joined s.flags ≡ in_join s.creator
  pub await_flag : has await_join s.flags ≡ finished s.routine
  pub exit_flag : has exit s.flags ≡ past_sync s.creator
  pub absence : is_absent s.routine ≡ before_create s.creator
  pub readiness : s.ready ≡ not (is_absent s.routine || is_startup s.routine)
  pub seen : (s.creator ≡ free) ⊎ (in_join s.creator ≡ true) → is_startup s.routine ≡ false
  pub synced_late : (s.creator ≡ syncing) ⊎ (past_sync s.creator ≡ true) → finished s.routine ≡ true
  pub no_early_exit : released s.routine ≡ true → past_sync s.creator ≡ true
  pub reaped_late : s.creator ≡ done → s.routine ≡ exited

module _ (worker : Bool) where
  pub Step-Inv : {s u : System} → Step worker true s u → Inv s → Inv u
  Step-Inv {s} (start f c e) inv = let k = start_begin-Keeps s.flags f e in ground (arith, k)
  Step-Inv {s} (created f c e) inv = ground (arith, start_ok-flags s.flags f e)
  Step-Inv {s} (not_created a r f c e) inv =
      let k = start_failed-Keeps a r s.flags f e in ground (arith, k)
  Step-Inv {s} (ready_seen c e) inv = ground arith
  Step-Inv {s} (stack c w e) inv = record {
    joined_flag = inv.joined_flag;
    await_flag = inv.await_flag;
    exit_flag = inv.exit_flag;
    absence = inv.absence;
    readiness = inv.readiness;
    seen = inv.seen;
    synced_late = inv.synced_late;
    no_early_exit = inv.no_early_exit;
    reaped_late = inv.reaped_late;
  }
  Step-Inv {s} (join f c e) inv = ground (arith, join_begin-flags s.flags f e)
  Step-Inv {s} (join_woken c e) inv = ground arith
  Step-Inv {s} (synced c) inv = ground (arith, join_end-flags s.flags)
  Step-Inv {s} (reaped c e) inv = ground arith
  Step-Inv {s} (starts_up c e) inv = ground arith
  Step-Inv {s} (no_startup c e) inv = ground arith
  Step-Inv {s} (enters r f c e) inv =
      let (k, at) = enter_run-Keeps s.flags f r e in ground (arith, k, at)
  Step-Inv {s} (leaves o r f c e) inv =
      let (k, at) = leave_run-Keeps worker o s.flags f r e in ground (arith, k, at)
  Step-Inv {s} (takes n c e) inv = ground arith
  Step-Inv {s} (no_more c e j) inv = ground arith
  Step-Inv {s} (task_done ok r f c e) inv =
      let (k, at) = leave_task-Keeps ok s.flags f r e in ground (arith, k, at)
  Step-Inv {s} (shuts r f c e) inv = ground (arith, await-flags s.flags f r e)
  Step-Inv {s} (exit_seen c e) inv = ground arith
  Step-Inv {s} (cleaned c) inv = ground arith

  pub Reach-Inv : (n : ℕ) {s : System} → Reach worker true n s → Inv s
  Reach-Inv n initial = ground arith
  Reach-Inv n (later r st) = Step-Inv st (Reach-Inv n r)
