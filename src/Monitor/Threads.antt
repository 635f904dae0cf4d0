-- ===== src/Monitor/Threads.antt =====
-- Threads that call the functions of one monitor of src/monitor.c, in any order.
use ext_pmmpthread.Prelude.{ℕ, ◌≡◌, false, Bool, ◌==◌, List, [], ◌∷◌, if◌then◌else◌, ◌||◌}
use ext_pmmpthread.Memory.{update}
use ext_pmmpthread.Monitor.{
  Tid, Monitor, ok, Round, returned, asleep, check, add, remove, notify, notify_one, wait_until,
  wait_until_woken,
}

-- Where a thread is in its call of `wait_until`.
pub data Place : Type 0 where
  outside sleeping : Place

pub record System : Type 0 where
  pub mon : Monitor
  pub place : Tid → Place

abbrev pub mem : Tid → List Tid → Bool
mem t [] = false
mem t (u ∷ us) = (t == u) || mem t us

abbrev pub without : Tid → List Tid → List Tid
without t [] = []
without t (u ∷ us) = if t == u then without t us else u ∷ without t us

abbrev pub after_round : Round → Place
after_round returned = outside
after_round asleep = sleeping

-- One step: a thread outside the call takes it up, adds, removes or checks flags, or notifies; a
-- sleeping thread that has been woken goes on; or the system wakes a sleeper for no reason, which
-- POSIX allows. Each holds the mutex from the moment that it gets it until it gives it up, so that
-- it is one step. `goal` are the flags that each thread waits for.
pub data Step (goal : Tid → ℕ) (s : System) : System → Type 0 where
  enter :
      (t : Tid) (r : Round) (m : Monitor)
      → s.place t ≡ outside
      → wait_until t (goal t) s.mon ≡ ok r m
      → Step goal s (record { mon = m; place = update s.place t (after_round r) })
  woken :
      (t : Tid) (r : Round) (m : Monitor)
      → s.place t ≡ sleeping
      → mem t s.mon.waiting ≡ false
      → wait_until_woken t (goal t) s.mon ≡ ok r m
      → Step goal s (record { mon = m; place = update s.place t (after_round r) })
  spurious :
      (t : Tid)
      → Step goal s (record s { mon = record s.mon { waiting = without t s.mon.waiting } })
  adds :
      (t : Tid) (f : ℕ) (m : Monitor)
      → s.place t ≡ outside
      → add t f s.mon ≡ ok tt m
      → Step goal s (record s { mon = m })
  removes :
      (t : Tid) (f : ℕ) (m : Monitor)
      → s.place t ≡ outside
      → remove t f s.mon ≡ ok tt m
      → Step goal s (record s { mon = m })
  checks :
      (t : Tid) (f r : ℕ) (m : Monitor)
      → s.place t ≡ outside
      → check t f s.mon ≡ ok r m
      → Step goal s (record s { mon = m })
  notifies : (m : Monitor) → notify s.mon ≡ ok 0 m → Step goal s (record s { mon = m })
  notifies_one : (m : Monitor) → notify_one s.mon ≡ ok 0 m → Step goal s (record s { mon = m })

-- A monitor that is there, whose mutex is free, with no thread inside.
pub data Reach (goal : Tid → ℕ) (m : Monitor) : System → Type 0 where
  start : Reach goal m (record { mon = m; place = λ _. outside })
  later : {s u : System} → Reach goal m s → Step goal s u → Reach goal m u
