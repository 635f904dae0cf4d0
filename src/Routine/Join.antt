-- ===== src/Routine/Join.antt =====
-- A join ends, and the properties are synchronised at the right moment (src/routine.c).
use ext_pmmpthread.Prelude.{
  ℕ, zero, suc, ◌+◌, ◌*◌, ◌<◌, ◌≡◌, ◌≢◌, refl, ◌∙◌, ap, Bool, true, ◌⊎◌, inl, inr, arith,
}
use ext_pmmpthread.Routine.{
  returned, Routine, absent, startup, entering, at_work, next_task, at_task, shutting, awaiting,
  cleaning, exited, enter_run, leave_run, leave_task, await,
}
use ext_pmmpthread.Routine.Effects.{enter_run-Keeps, leave_run-Keeps, leave_task-Keeps, await-flags}
use ext_pmmpthread.Routine.Steps.{
  Creator, idle, creating, waiting_ready, free, joining, syncing, reaping, done, System, Step,
  Reach, start, created, not_created, ready_seen, stack, join, join_woken, synced, reaped,
  starts_up, no_startup, enters, leaves, takes, no_more, task_done, shuts, exit_seen, cleaned,
}
use ext_pmmpthread.Routine.Invariant.{Inv, in_join, finished, past_sync, Step-Inv, Reach-Inv}

module _ (worker started_up : Bool) where
  -- Whatever steps are taken, the system comes to a state of the kind, and does not stop before it.
  pub data Inevitable (P : System → Type 0) : System → Type 0 where
    now : (s : System) → P s → Inevitable P s
    soon :
        (s u : System)
        → Step worker started_up s u
        → ((v : System) → Step worker started_up s v → Inevitable P v)
        → Inevitable P s

-- The rounds that the creator and the routine have left in a join.
abbrev creator_left : Creator → ℕ
creator_left joining = 3
creator_left syncing = 2
creator_left reaping = 1
creator_left _ = 0

abbrev routine_left : Routine → ℕ
routine_left absent = 0
routine_left startup = 9
routine_left entering = 8
routine_left at_work = 7
routine_left next_task = 5
routine_left at_task = 6
routine_left shutting = 4
routine_left awaiting = 2
routine_left cleaning = 1
routine_left exited = 0

abbrev left : System → ℕ
left s = creator_left s.creator + (routine_left s.routine + s.tasks * 2)

module _ (worker : Bool) where
  fewer :
      {s u : System}
      → Step worker true s u
      → Inv s
      → in_join s.creator ≡ true
      → (left u < left s) × (in_join u.creator ≡ true)
  fewer {s} (start f c e) inv j = ground arith
  fewer {s} (created f c e) inv j = ground arith
  fewer {s} (not_created a r f c e) inv j = ground arith
  fewer {s} (ready_seen c e) inv j = ground arith
  fewer {s} (stack c w e) inv j = ground arith
  fewer {s} (join f c e) inv j = ground arith
  fewer {s} (join_woken c e) inv j = ground arith
  fewer {s} (synced c) inv j = ground arith
  fewer {s} (reaped c e) inv j = ground arith
  fewer {s} (starts_up c e) inv j = ground arith
  fewer {s} (no_startup c e) inv j = ground arith
  fewer {s} (enters r f c e) inv j = ground (arith, (enter_run-Keeps s.flags f r e).1)
  fewer {s} (leaves o r f c e) inv j = ground (arith, (leave_run-Keeps worker o s.flags f r e).1)
  fewer {s} (takes n c e) inv j = ground arith
  fewer {s} (no_more c e h) inv j = ground arith
  fewer {s} (task_done ok r f c e) inv j = ground (arith, (leave_task-Keeps ok s.flags f r e).1)
  fewer {s} (shuts r f c e) inv j = ground (arith, await-flags s.flags f r e)
  fewer {s} (exit_seen c e) inv j = ground arith
  fewer {s} (cleaned c) inv j = ground arith

  -- The creator's next step, once the routine waits for it or has ended.
  creator_step :
      (s : System) (c : Creator)
      → s.creator ≡ c
      → in_join c ≡ true
      → c ≢ done
      → Inv s
      → finished s.routine ≡ true
      → ((u : System) × Step worker true s u) ⊎ (c ≡ reaping)
  creator_step s joining e j n inv f = inl (_, join_woken e (inv.await_flag ∙ f))
  creator_step s syncing e j n inv f = inl (_, synced e)
  creator_step s reaping e j n inv f = inr refl
  creator_step s done e j n inv f = absurd (n refl)
  creator_step s idle e j n inv f = ground arith
  creator_step s creating e j n inv f = ground arith
  creator_step s waiting_ready e j n inv f = ground arith
  creator_step s free e j n inv f = ground arith

  -- A join that is not done can go on.
  progress :
      (s : System) (r : Routine)
      → s.routine ≡ r
      → in_join s.creator ≡ true
      → s.creator ≢ done
      → Inv s
      → (u : System) × Step worker true s u
  progress s absent e j n inv = ground arith
  progress s startup e j n inv = (_, starts_up e refl)
  progress s entering e j n inv = (_, enters (enter_run s.flags).0 (enter_run s.flags).1 e refl)
  progress s at_work e j n inv = (
    _,
    leaves returned (leave_run worker returned s.flags).0 (leave_run worker returned s.flags).1 e
        refl,
  )
  progress s next_task e j n inv = next s.tasks refl
    where
      next : (t : ℕ) → s.tasks ≡ t → (u : System) × Step worker true s u
      next zero none_left = (_, no_more e none_left (inv.joined_flag ∙ j))
      next (suc t) more = (_, takes t e more)
  progress s at_task e j n inv =
      (_, task_done true (leave_task true s.flags).0 (leave_task true s.flags).1 e refl)
  progress s shutting e j n inv = (_, shuts (await s.flags).0 (await s.flags).1 e refl)
  progress s cleaning e j n inv = (_, cleaned e)
  progress s awaiting e j n inv = elim (creator_step s s.creator refl j n inv (ap finished e)) [
    | inl step ↦ step
    | inr c ↦ (_, exit_seen e (inv.exit_flag ∙ ap past_sync c))
  ]
  progress s exited e j n inv = elim (creator_step s s.creator refl j n inv (ap finished e)) [
    | inl step ↦ step
    | inr c ↦ (_, reaped c e)
  ]

  -- The creator is past its join.
  abbrev pub Joined : System → Type 0
  Joined s = (s.creator ≡ done) × (s.routine ≡ exited)

  done_or_not : (c : Creator) → (c ≡ done) ⊎ (c ≢ done)
  done_or_not done = inl refl
  done_or_not idle = inr (λ e. ground arith)
  done_or_not creating = inr (λ e. ground arith)
  done_or_not waiting_ready = inr (λ e. ground arith)
  done_or_not free = inr (λ e. ground arith)
  done_or_not joining = inr (λ e. ground arith)
  done_or_not syncing = inr (λ e. ground arith)
  done_or_not reaping = inr (λ e. ground arith)

  ends_within :
      (k : ℕ) (s : System)
      → left s < k
      → Inv s
      → in_join s.creator ≡ true
      → Inevitable worker true Joined s
  ends_within zero s l inv j = absurd (omega arith)
  ends_within (suc k) s l inv j = elim (done_or_not s.creator) [
    | inl e ↦ now s (e, inv.reaped_late e)
    | inr n ↦
        let (u, step) = progress s s.routine refl j n inv in
        soon s u step (λ v st.
          let (less, j') = fewer st inv j in
          ends_within k v (omega arith) (Step-Inv worker st inv) j')
  ]

  -- A join always ends: from every state that a new thread and its creator can come to in which the
  -- creator is in `join`, whatever steps are taken next, the system does not stop before `pthread_join`
  -- has returned and the thread has ended, and comes there after finitely many steps; this is so when
  -- the thread's start-up succeeds, each call of PHP code ends in one step and the creator alone adds
  -- tasks.
  pub join_completes :
      (n : ℕ) (s : System)
      → Reach worker true n s
      → in_join s.creator ≡ true
      → Inevitable worker true Joined s
  join_completes n s r j = ends_within (suc (left s)) s (omega arith) (Reach-Inv worker n r) j

  -- In every such state in which the creator is about to synchronise the properties of the thread, the
  -- thread is in the wait for its creator: it has run all of its PHP code, and still holds its objects.
  pub sync_at_rest :
      (n : ℕ) (s : System) → Reach worker true n s → s.creator ≡ syncing → s.routine ≡ awaiting
  sync_at_rest n s r e = let inv = Reach-Inv worker n r in ground arith
