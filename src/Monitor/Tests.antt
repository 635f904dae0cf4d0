-- ===== src/Monitor/Tests.antt =====
-- The theorems about monitors at concrete states, and runs of the code.
use ext_pmmpthread.Prelude.{
  ℕ, ◌≡◌, ◌≢◌, refl, true, false, some, [], ◌∷◌, inr, ◌+◌, pos, negsuc, arith,
}
use Prim.Native.Nat.{bit_and}
use ext_pmmpthread.Memory.{update}
use ext_pmmpthread.Monitor.{
  Tid, Monitor, running, joined, ready, ok, returned, asleep, init, add, wait_deadline, wait_until,
  wait_until_woken,
}
use ext_pmmpthread.Monitor.Threads.{
  outside, sleeping, System, mem, enter, adds, Reach, start, later,
}
use ext_pmmpthread.Monitor.Waiting.{no_lost_wakeup, returns_only_when_set}
use ext_pmmpthread.Monitor.Timeout.{Meets, wait_deadline_lem}

abbrev fresh : Monitor
fresh = record { state = 0; alive = true; owner = 0; depth = 0; waiting = [] }

init_fresh : init true true ≡ some fresh
unfolding init
init_fresh = refl

-- Thread 5 holds the mutex twice, and two flags are set.
abbrev held : Monitor
held = record { state = running + joined; alive = true; owner = 5; depth = 2; waiting = 9 ∷ [] }

wait_deadline_lem_example : Meets 7 999999 (pos 2000001) (wait_deadline 7 999999 (pos 2000001))
wait_deadline_lem_example = wait_deadline_lem 7 999999 (pos 2000001) (omega arith)

-- A timeout of -1 at a whole second.
negative_nsec : wait_deadline 7 0 (negsuc 0) ≡ record { sec = pos 7; nsec = negsuc 999 }
unfolding wait_deadline
negative_nsec = refl

-- Thread 1 waits for `ready`; thread 2 sets it.
abbrev goal : Tid → ℕ
goal _ = ready

abbrev slept : Monitor
slept = record { state = 0; alive = true; owner = 1; depth = 0; waiting = 1 ∷ [] }

abbrev set : Monitor
set = record { state = ready; alive = true; owner = 2; depth = 0; waiting = [] }

abbrev final : System
final = record { mon = set; place = update (λ _. outside) 1 sleeping }

final_reached : Reach goal fresh final
unfolding wait_until add
final_reached = later (later start (enter 1 asleep slept refl refl)) (adds 2 ready set refl refl)

no_lost_wakeup_example :
    (mem 1 set.waiting ≡ false) × ((m' : Monitor) × (wait_until_woken 1 ready set ≡ ok returned m'))
no_lost_wakeup_example =
    no_lost_wakeup goal fresh refl refl refl final 1 final_reached refl (omega arith)

returns_only_when_set_example : bit_and ready ready ≢ 0
unfolding wait_until_woken
returns_only_when_set_example =
    returns_only_when_set goal fresh refl refl refl final 1 (record set { owner = 1 }) final_reached
      (inr refl)
