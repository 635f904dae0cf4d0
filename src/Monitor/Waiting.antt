-- ===== src/Monitor/Waiting.antt =====
-- Threads that wait for flags of one monitor, in any order with threads that add and remove flags:
-- the loop of `pmmpthread_monitor_wait_until` loses no wake-up.
use ext_pmmpthread.Prelude.{
  ℕ, ◌≡◌, ◌∙◌, ◌≢◌, true, false, ==_iff, List, [], ◌∷◌, ◌⊎◌, inl, inr, arith,
}
use Prim.Native.Nat.{bit_and}
use ext_pmmpthread.Memory.{update}
use ext_pmmpthread.Monitor.{
  Tid, Monitor, ok, Round, returned, asleep, check, add, remove, notify, notify_one, wait_until,
  wait_until_woken,
}
use ext_pmmpthread.Monitor.Threads.{
  outside, sleeping, System, mem, without, after_round, Step, Reach, start, later, notifies,
  notifies_one, enter, woken, spurious, adds, removes, checks,
}

-- Between steps the mutex is free, and a thread that is still on the condition waits for flags that
-- are all clear.
pub record Inv (goal : Tid → ℕ) (s : System) : Type 0 where
  pub alive : s.mon.alive ≡ true
  pub free : s.mon.depth ≡ 0
  pub waits :
      (t : Tid)
      → mem t s.mon.waiting ≡ true
      → (bit_and s.mon.state (goal t) ≡ 0) × (s.place t ≡ sleeping)

mem-without : (t u : Tid) (us : List Tid) → mem t (without u us) ≡ true → mem t us ≡ true
mem-without t u [] h = h
mem-without t u (v ∷ us) h = ground (arith, mem-without t u us)

-- What one call does to a free monitor.
record RoundDone (goal : ℕ) (t : Tid) (m : Monitor) (r : Round) (m' : Monitor) : Type 0 where
  alive : m'.alive ≡ true
  free : m'.depth ≡ 0
  state : m'.state ≡ m.state
  result :
      ((r ≡ returned) × (bit_and m.state goal ≢ 0) × (m'.waiting ≡ m.waiting))
      ⊎ ((r ≡ asleep) × (bit_and m.state goal ≡ 0) × (m'.waiting ≡ t ∷ m.waiting))

enter_lem :
    (t : Tid) (f : ℕ) (m m' : Monitor) (r : Round)
    → m.alive ≡ true
    → m.depth ≡ 0
    → wait_until t f m ≡ ok r m'
    → RoundDone f t m r m'
unfolding wait_until
enter_lem t f m m' r a d e = ground arith

woken_lem :
    (t : Tid) (f : ℕ) (m m' : Monitor) (r : Round)
    → m.alive ≡ true
    → m.depth ≡ 0
    → wait_until_woken t f m ≡ ok r m'
    → RoundDone f t m r m'
unfolding wait_until_woken
woken_lem t f m m' r a d e = ground arith

-- A call that ends with every waiter woken, or that keeps flags and waiters.
record CallDone (m m' : Monitor) : Type 0 where
  alive : m'.alive ≡ true
  free : m'.depth ≡ 0
  quiet : (m'.waiting ≡ []) ⊎ ((m'.state ≡ m.state) × (m'.waiting ≡ m.waiting))

add_done :
    (t : Tid) (f : ℕ) (m m' : Monitor)
    → m.alive ≡ true
    → m.depth ≡ 0
    → add t f m ≡ ok tt m'
    → CallDone m m'
unfolding add
add_done t f m m' a d e = ground arith

remove_done :
    (t : Tid) (f : ℕ) (m m' : Monitor)
    → m.alive ≡ true
    → m.depth ≡ 0
    → remove t f m ≡ ok tt m'
    → CallDone m m'
unfolding remove
remove_done t f m m' a d e = ground arith

check_done :
    (t : Tid) (f r : ℕ) (m m' : Monitor)
    → m.alive ≡ true
    → m.depth ≡ 0
    → check t f m ≡ ok r m'
    → CallDone m m'
unfolding check
check_done t f r m m' a d e = ground arith

notify_done : (m m' : Monitor) → m.alive ≡ true → m.depth ≡ 0 → notify m ≡ ok 0 m' → CallDone m m'
unfolding notify
notify_done m m' a d e = ground arith

notify_one_kept :
    (m m' : Monitor)
    → notify_one m ≡ ok 0 m'
    → (m'.alive ≡ m.alive) × (m'.depth ≡ m.depth) × (m'.state ≡ m.state)
unfolding notify_one
notify_one_kept m m' e = ground arith

notify_one_waiting :
    (m m' : Monitor) (t : Tid)
    → notify_one m ≡ ok 0 m'
    → mem t m'.waiting ≡ true
    → mem t m.waiting ≡ true
unfolding notify_one
notify_one_waiting m m' t e h = ground arith

module _ (goal : Tid → ℕ) where
  round-Inv :
      (s : System) (t : Tid) (r : Round) (m : Monitor)
      → Inv goal s
      → mem t s.mon.waiting ≡ false
      → RoundDone (goal t) t s.mon r m
      → Inv goal (record { mon = m; place = update s.place t (after_round r) })
  round-Inv s t r m inv gone d = record {
    alive = d.alive;
    free = d.free;
    waits = λ u h. ground (arith, inv.waits u, d.result, d.state, ==_iff u t);
  }

  call-Inv :
      (s : System) (m : Monitor) → Inv goal s → CallDone s.mon m → Inv goal (record s { mon = m })
  call-Inv s m inv d = record {
    alive = d.alive;
    free = d.free;
    waits = λ u h. ground (arith, inv.waits u, d.quiet);
  }

  outside_not_waiting :
      (s : System) (t : Tid) → Inv goal s → s.place t ≡ outside → mem t s.mon.waiting ≡ false
  outside_not_waiting s t inv e = ground (arith, inv.waits t)

  Step-Inv : {s u : System} → Step goal s u → Inv goal s → Inv goal u
  Step-Inv {s} (enter t r m out e) inv =
      round-Inv s t r m inv (outside_not_waiting s t inv out)
        (enter_lem t (goal t) s.mon m r inv.alive inv.free e)
  Step-Inv {s} (woken t r m _ gone e) inv =
      round-Inv s t r m inv gone (woken_lem t (goal t) s.mon m r inv.alive inv.free e)
  Step-Inv {s} (spurious t) inv = record {
    alive = inv.alive;
    free = inv.free;
    waits = λ u h. inv.waits u (mem-without u t s.mon.waiting h);
  }
  Step-Inv {s} (adds t f m _ e) inv = call-Inv s m inv (add_done t f s.mon m inv.alive inv.free e)
  Step-Inv {s} (removes t f m _ e) inv =
      call-Inv s m inv (remove_done t f s.mon m inv.alive inv.free e)
  Step-Inv {s} (checks t f r m _ e) inv =
      call-Inv s m inv (check_done t f r s.mon m inv.alive inv.free e)
  Step-Inv {s} (notifies m e) inv = call-Inv s m inv (notify_done s.mon m inv.alive inv.free e)
  Step-Inv {s} (notifies_one m e) inv =
      let (alive, free, state) = notify_one_kept s.mon m e in
      record {
        alive = alive ∙ inv.alive;
        free = free ∙ inv.free;
        waits = λ u h. rw state (inv.waits u (notify_one_waiting s.mon m u e h));
      }

  module _ (m : Monitor) (alive : m.alive ≡ true) (free : m.depth ≡ 0)
      (none_waits : m.waiting ≡ []) where
    Reach-Inv : {s : System} → Reach goal m s → Inv goal s
    Reach-Inv start = record { alive = alive; free = free; waits = λ t h. ground arith }
    Reach-Inv (later r st) = Step-Inv st (Reach-Inv r)

    -- No wake-up is lost: in every state that threads can bring a free monitor to, by any
    -- interleaving of waits, additions, removals, checks, notifications and spurious wake-ups, a
    -- thread that sleeps although one of its flags is set is no longer on the condition, and its next
    -- round returns.
    pub no_lost_wakeup :
        (s : System) (t : Tid)
        → Reach goal m s
        → s.place t ≡ sleeping
        → bit_and s.mon.state (goal t) ≢ 0
        → (mem t s.mon.waiting ≡ false)
          × ((m' : Monitor) × (wait_until_woken t (goal t) s.mon ≡ ok returned m'))
    unfolding wait_until_woken
    no_lost_wakeup s t r at set =
        let inv = Reach-Inv r in
        (
          ground (arith, inv.waits t),
          (record s.mon { owner = t }, ground (arith, inv.alive, inv.free)),
        )

    -- `wait_until` returns only when one of the flags is set: in every such state, neither the first
    -- round nor one after a wake-up returns while all of them are clear.
    pub returns_only_when_set :
        (s : System) (t : Tid) (m' : Monitor)
        → Reach goal m s
        → (wait_until t (goal t) s.mon ≡ ok returned m')
          ⊎ (wait_until_woken t (goal t) s.mon ≡ ok returned m')
        → bit_and s.mon.state (goal t) ≢ 0
    returns_only_when_set s t m' r (inl e) =
        let inv = Reach-Inv r in
        ground (arith, (enter_lem t (goal t) s.mon m' returned inv.alive inv.free e).result)
    returns_only_when_set s t m' r (inr e) =
        let inv = Reach-Inv r in
        ground (arith, (woken_lem t (goal t) s.mon m' returned inv.alive inv.free e).result)
