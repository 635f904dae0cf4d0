-- ===== src/Worker/Tests.antt =====
-- The theorems about workers at a concrete heap.
use ext_pmmpthread.Prelude.{
  ℕ, ◌≤◌, ◌≡◌, refl, Bool, true, Option, none, some, [], ◌∷◌, ◌++◌, drop, ◌==◌, arith,
}
use ext_pmmpthread.Memory.{Item, item, Mem, update, ok}
use ext_pmmpthread.Memory.Cells.{Holds}
use ext_pmmpthread.Memory.Returns.{Returns}
use ext_pmmpthread.Queue.{empty}
use ext_pmmpthread.Queue.Chain.{Cells}
use ext_pmmpthread.Queue.Refines.{IsQueue}
use ext_pmmpthread.Queue.Clean.{held}
use ext_pmmpthread.Monitor.{collect_garbage}
use ext_pmmpthread.Worker.{
  Worker, add_task, collect_tasks, next_task_round, forget_collected, get_gc_extra,
}
use ext_pmmpthread.Worker.Tasks.{values, IsTaken, get_gc_extra-values, next_task-first}
use ext_pmmpthread.Worker.Collect.{IsQueued, add_task-IsQueued, accepted}
use ext_pmmpthread.Worker.Cache.{
  IsCollected, IsForgotten, collect_tasks-IsCollected, forget_collected-IsForgotten,
}

-- Tasks 1 and 2 wait, task 3 runs, tasks 4 and 5 are done.
abbrev cells : ℕ → Option Item
cells =
    update
      (update
        (update (update (update (λ _. none) 1 (some (item 2 0 10))) 2 (some (item 0 1 20))) 3
          (some (item 0 0 30)))
        4 (some (item 5 0 40)))
      5 (some (item 0 4 50))

abbrev heap : Mem
heap = record { cell = cells; refs = λ _. 1 }

abbrev waiting : Cells
waiting = (1, 10) ∷ (2, 20) ∷ []

abbrev done : Cells
done = (4, 40) ∷ (5, 50) ∷ []

abbrev busy : Worker
busy = record {
  queue = record { size = 2; head = 1; tail = 2 };
  gc = record { size = 2; head = 4; tail = 5 };
  running = 3;
  tasks_collected = 0;
  flags = 0;
}

waiting-IsQueue : IsQueue heap busy.queue waiting
waiting-IsQueue = record {
  chain = (ground arith, refl, (ground arith, refl, tt));
  head = refl;
  tail = refl;
  size = refl;
}

done-IsQueue : IsQueue heap busy.gc done
done-IsQueue = record {
  chain = (ground arith, refl, (ground arith, refl, tt));
  head = refl;
  tail = refl;
  size = refl;
}

done-held : (x : ℕ) → held x done ≤ heap.refs x
done-held x = ground arith

third-Holds : Holds heap 3 (item 0 0 30)
third-Holds = ground arith

empty-IsQueue : IsQueue heap empty []
empty-IsQueue = record { chain = tt; head = refl; tail = refl; size = refl }

get_gc_extra-values_example :
    get_gc_extra true 3 busy heap ≡ ok (values waiting ++ (30 ∷ []) ++ values done) heap
get_gc_extra-values_example =
    get_gc_extra-values heap busy waiting done (30 ∷ []) 3 waiting-IsQueue done-IsQueue
      (0, 0, third-Holds) (omega arith) (omega arith)

next_task-first_example :
    Returns (IsTaken heap busy 1 10 ((2, 20) ∷ [])) (next_task_round busy empty heap)
next_task-first_example = next_task-first heap busy empty 1 10 ((2, 20) ∷ []) refl waiting-IsQueue

add_task-IsQueued_example : Returns (IsQueued heap busy 6 60 waiting) (add_task true 6 busy 60 heap)
add_task-IsQueued_example =
    add_task-IsQueued heap busy waiting 6 60 waiting-IsQueue (λ e. ground arith) refl

-- A callback that takes the first task only.
abbrev first_only : ℕ → ℕ → Bool
first_only n v = n == 0

collect_tasks-IsCollected_example :
    Returns
      (IsCollected busy
        (accepted first_only 0 done)
        waiting
        (drop (accepted first_only 0 done) done))
      (collect_tasks true 3 first_only busy heap)
collect_tasks-IsCollected_example =
    collect_tasks-IsCollected 3 first_only heap busy waiting done waiting-IsQueue done-IsQueue
      done-held (omega arith)

abbrev told : Worker
told = record busy { tasks_collected = 1; flags = collect_garbage }

forget_collected-IsForgotten_example :
    Returns (IsForgotten told (drop told.tasks_collected done)) (forget_collected told busy.gc heap)
forget_collected-IsForgotten_example =
    forget_collected-IsForgotten heap told busy.gc done (λ e. ground arith) done-IsQueue done-held
      (omega arith)
