-- ===== src/Routine/Tests.antt =====
-- The theorems about src/routine.c at concrete runs.
use ext_pmmpthread.Prelude.{◌≡◌, refl, true, false, some, inl}
use ext_pmmpthread.Routine.{
  not_started, already_started, eagain, no_resources, returned, thrown, start_begin, start_end,
  join_begin, run_begin, run_end, enter_run, leave_run, leave_task, await, at_work, entering,
  next_task, awaiting, stack_refused,
}
use ext_pmmpthread.Routine.Steps.{
  joining, syncing, System, Reach, initial, later, start, created, starts_up, ready_seen, join,
  enters, leaves, takes, task_done, no_more, shuts, join_woken,
}
use ext_pmmpthread.Routine.Join.{Inevitable, Joined, join_completes, sync_at_rest}

-- A worker with one task, whose creator joins it before it has run.
abbrev in_join_early : System
in_join_early = record { creator = joining; routine = entering; flags = 5; ready = true; tasks = 1 }

early : Reach true true 1 in_join_early
unfolding start_begin start_end join_begin
early =
    later
      (later
        (later (later (later initial (start 1 refl refl)) (created 1 refl refl))
          (starts_up refl refl))
        (ready_seen refl refl))
      (join 5 refl refl)

join_completes_example : Inevitable true true (Joined true) in_join_early
join_completes_example = join_completes true 1 in_join_early early refl

-- The same after the task, the shutdown functions and the wake-up of the creator.
abbrev in_sync : System
in_sync = record { creator = syncing; routine = awaiting; flags = 133; ready = true; tasks = 0 }

later_on : Reach true true 1 in_sync
unfolding enter_run run_begin leave_run run_end leave_task await
later_on =
    later
      (later
        (later
          (later
            (later
              (later (later early (enters at_work 7 refl refl))
                (leaves returned next_task 5 refl refl))
              (takes 0 refl refl))
            (task_done true next_task 5 refl refl))
          (no_more refl refl refl))
        (shuts awaiting 133 refl refl))
      (join_woken refl refl)

sync_at_rest_example : awaiting ≡ awaiting
sync_at_rest_example = sync_at_rest true 1 in_sync later_on refl

-- A second start, and a join without a start, are refused.
start_twice : start_begin true 1 ≡ inl already_started
unfolding start_begin
start_twice = refl

join_first : join_begin true 0 ≡ inl not_started
unfolding join_begin
join_first = refl

no_thread : start_end eagain 1 ≡ (some no_resources, 0)
unfolding start_end
no_thread = refl

thrown_run : run_end thrown 3 ≡ (false, 9)
unfolding run_end
thrown_run = refl

-- A task is refused once the worker is joined.
too_late : stack_refused true 5 ≡ true
unfolding stack_refused
too_late = refl
