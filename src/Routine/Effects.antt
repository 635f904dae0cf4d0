-- ===== src/Routine/Effects.antt =====
-- What the operations of src/routine.c do to the flags JOINED, AWAIT_JOIN and EXIT.
use Prim.Native.Nat.{bit_and}
use ext_pmmpthread.Prelude.{
  ◌<◌, ℕ, ◌≡◌, refl, none, sym, ◌∙◌, subst, Bool, true, false, some, ◌⊎◌, inl, inr, ◌^◌, arith,
}
use ext_pmmpthread.Monitor.{started, running, joined, error, exit, await_join}
use ext_pmmpthread.Routine.{
  has, add, remove, success, Refused, Created, Outcome, start_begin, start_end, join_begin,
  join_end, Routine, at_work, next_task, shutting, awaiting, enter_run, leave_run, leave_task,
  await, run_begin, run_end,
}
use ext_pmmpthread.Routine.Flags.{has-add, has-remove}

-- Words with the same flags JOINED, AWAIT_JOIN and EXIT.
pub record Keeps (s f : ℕ) : Type 0 where
  pub joined_kept : has joined f ≡ has joined s
  pub await_kept : has await_join f ≡ has await_join s
  pub exit_kept : has exit f ≡ has exit s

add-Keeps :
    (g s : ℕ)
    → has joined g ≡ false
    → has await_join g ≡ false
    → has exit g ≡ false
    → Keeps s (add g s)
add-Keeps g s j a e = record {
  joined_kept = ground (arith, has-add g joined s (omega arith), j);
  await_kept = ground (arith, has-add g await_join s (omega arith), a);
  exit_kept = ground (arith, has-add g exit s (omega arith), e);
}

remove-Keeps :
    (g s : ℕ)
    → g < 2 ^ 64
    → bit_and g joined ≡ 0
    → bit_and g await_join ≡ 0
    → bit_and g exit ≡ 0
    → Keeps s (remove g s)
remove-Keeps g s h j a e = record {
  joined_kept = has-remove g joined s h (omega arith) j;
  await_kept = has-remove g await_join s h (omega arith) a;
  exit_kept = has-remove g exit s h (omega arith) e;
}

stop_running-Keeps : (s : ℕ) → Keeps s (remove running s)
stop_running-Keeps s = remove-Keeps running s (omega arith) refl refl refl

Keeps-trans : {a b c : ℕ} → Keeps a b → Keeps b c → Keeps a c
Keeps-trans p q = record {
  joined_kept = q.joined_kept ∙ p.joined_kept;
  await_kept = q.await_kept ∙ p.await_kept;
  exit_kept = q.exit_kept ∙ p.exit_kept;
}

Keeps-same : (s : ℕ) → Keeps s s
Keeps-same s = record { joined_kept = refl; await_kept = refl; exit_kept = refl }

pub start_begin-Keeps : (s f : ℕ) → start_begin true s ≡ inr f → Keeps s f
unfolding start_begin
start_begin-Keeps s f e =
    let same : f ≡ add started s = ground arith in
    subst (Keeps s) (sym same) (add-Keeps started s refl refl refl)

pub start_failed-Keeps :
    (c : Created) (r : Refused) (s f : ℕ) → start_end c s ≡ (some r, f) → Keeps s f
unfolding start_end
start_failed-Keeps c r s f e =
    let same : f ≡ remove started s = ground arith in
    subst (Keeps s) (sym same) (remove-Keeps started s (omega arith) refl refl refl)

pub enter_run-Keeps :
    (s f : ℕ) (r : Routine) → enter_run s ≡ (r, f) → Keeps s f × ((r ≡ shutting) ⊎ (r ≡ at_work))
unfolding enter_run run_begin
enter_run-Keeps s f r e =
    let ways : (f ≡ s) ⊎ (f ≡ add running s) = ground arith in
    (
      elim ways [
        | inl same ↦ subst (Keeps s) (sym same) (Keeps-same s)
        | inr same ↦ subst (Keeps s) (sym same) (add-Keeps running s refl refl refl)
      ],
      ground arith,
    )

pub leave_run-Keeps :
    (worker : Bool) (o : Outcome) (s f : ℕ) (r : Routine)
    → leave_run worker o s ≡ (r, f)
    → Keeps s f × ((r ≡ shutting) ⊎ (r ≡ next_task))
unfolding leave_run run_end
leave_run-Keeps worker o s f r e =
    let ways : (f ≡ remove running s) ⊎ (f ≡ remove running (add error s)) = ground arith in
    (
      elim ways [
        | inl same ↦ subst (Keeps s) (sym same) (stop_running-Keeps s)
        | inr same ↦
            subst (Keeps s) (sym same)
              (Keeps-trans (add-Keeps error s refl refl refl) (stop_running-Keeps (add error s)))
      ],
      ground arith,
    )

pub leave_task-Keeps :
    (ok : Bool) (s f : ℕ) (r : Routine)
    → leave_task ok s ≡ (r, f)
    → Keeps s f × ((r ≡ shutting) ⊎ (r ≡ next_task))
unfolding leave_task
leave_task-Keeps true s f r e =
    let same : f ≡ s = ground arith in (subst (Keeps s) (sym same) (Keeps-same s), ground arith)
leave_task-Keeps false s f r e =
    let same : f ≡ add error s = ground arith in
    (subst (Keeps s) (sym same) (add-Keeps error s refl refl refl), ground arith)

pub join_begin-flags :
    (s f : ℕ)
    → join_begin true s ≡ inr f
    → (has joined f ≡ true) × ((has await_join f ≡ has await_join s) × (has exit f ≡ has exit s))
unfolding join_begin
join_begin-flags s f e =
    let same : f ≡ add joined s = ground arith in
    subst
      (λ f.
        (has joined f ≡ true) × ((has await_join f ≡ has await_join s) × (has exit f ≡ has exit s)))
      (sym same)
      (
        ground (arith, has-add joined joined s (omega arith)),
        (
          ground (arith, has-add joined await_join s (omega arith)),
          ground (arith, has-add joined exit s (omega arith)),
        ),
      )

pub join_end-flags :
    (s : ℕ)
    → (has joined (join_end s) ≡ has joined s)
      × ((has await_join (join_end s) ≡ has await_join s) × (has exit (join_end s) ≡ true))
unfolding join_end
join_end-flags s = (
  ground (arith, has-add exit joined s (omega arith)),
  (
    ground (arith, has-add exit await_join s (omega arith)),
    ground (arith, has-add exit exit s (omega arith)),
  ),
)

pub await-flags :
    (s f : ℕ) (r : Routine)
    → await s ≡ (r, f)
    → (r ≡ awaiting)
      × ((has joined f ≡ has joined s) × ((has await_join f ≡ true) × (has exit f ≡ has exit s)))
unfolding await
await-flags s f r e =
    let same : f ≡ add await_join s = ground arith in
    (
      ground arith,
      subst
          (λ f.
            (has joined f ≡ has joined s) × ((has await_join f ≡ true) × (has exit f ≡ has exit s)))
          (sym same)
          (
            ground (arith, has-add await_join joined s (omega arith)),
            (
              ground (arith, has-add await_join await_join s (omega arith)),
              ground (arith, has-add await_join exit s (omega arith)),
            ),
          ),
    )

pub start_ok-flags : (s f : ℕ) → start_end success s ≡ (none, f) → f ≡ s
unfolding start_end
start_ok-flags s f e = ground arith
