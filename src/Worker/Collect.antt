-- ===== src/Worker/Collect.antt =====
-- Adding a task to a worker of src/worker.c, and collecting those that are done.
use ext_pmmpthread.Prelude.{
  ℕ, zero, suc, ◌+◌, ◌-◌, ◌%◌, ◌<◌, ◌≤◌, ◌≡◌, ◌≢◌, refl, Bool, true, false, Bool-cases, inl, inr,
  some, [], ◌∷◌, ◌++◌, length, length-append, drop, ◌==◌, ==_iff, ==_self, if◌then◌else◌, arith,
}
use ext_pmmpthread.Memory.{Ptr, null, Value, item, Mem, update, write, count, alloc, addref}
use ext_pmmpthread.Memory.Cells.{Holds, not_null, load-ok}
use ext_pmmpthread.Memory.Returns.{Returns, returns, bind, mono}
use ext_pmmpthread.Queue.{Queue, long_mod, Mode, item_new, push_new}
use ext_pmmpthread.Queue.Chain.{Cells, first_of, SameOutside, ◌∉◌, frame, has-append}
use ext_pmmpthread.Queue.Refines.{IsQueue, push-append}
use ext_pmmpthread.Queue.Ends.{shift-cons}
use ext_pmmpthread.Queue.Clean.{held}
use ext_pmmpthread.Worker.{Worker, Added, add_task, collect_loop}

-- The task waits last, one reference more is held to it, and whether the queue was empty says
-- whether the worker is woken.
pub record IsQueued (m : Mem) (w : Worker) (p : Ptr) (v : Value) (xs : Cells) (r : Added) (g : Mem)
    : Type 0 where
  pub queue : IsQueue g r.worker.queue (xs ++ (p, v) ∷ [])
  pub gc : r.worker.gc ≡ w.gc
  pub running : r.worker.running ≡ w.running
  pub flags : r.worker.flags ≡ w.flags
  pub notified : r.notified ≡ (length xs % long_mod == 0)
  pub returned : r.returned ≡ suc (length xs) % long_mod
  pub same : SameOutside (xs ++ (p, v) ∷ []) m g
  pub refs : (x : Value) → g.refs x ≡ update m.refs v (suc (m.refs v)) x

-- A task that is added waits behind the others; the worker is woken exactly when its queue was
-- empty, modulo 2 ^ 64; the size returned counts the new task. The item's address is a new one.
pub add_task-IsQueued :
    (m : Mem) (w : Worker) (xs : Cells) (fresh : Ptr) (v : Value)
    → IsQueue m w.queue xs
    → fresh ≢ null
    → fresh ∉ xs
    → Returns (IsQueued m w fresh v xs) (add_task true fresh w v m)
unfolding add_task push_new item_new alloc addref write count
add_task-IsQueued m w xs fresh v q ne out =
    let made : Mem = count (write m fresh (some (item null null v))) v (suc (m.refs v)) in
    let there : IsQueue made w.queue xs = record {
      chain = frame m made null xs null q.chain λ a i. ground (arith, ==_iff a fresh);
      head = q.head;
      tail = q.tail;
      size = q.size;
    } in
    let new : Holds made fresh (item null null v) = record {
      ne_null = ne;
      holds = ground (arith, ==_self fresh);
    } in
    bind (push-append made w.queue xs fresh (item null null v) there new out) λ r g done.
      returns (record {
        queue = done.0;
        gc = refl;
        running = refl;
        flags = refl;
        notified = rw q.size refl;
        returned = omega (arith, done.0.size, length-append xs ((fresh, v) ∷ []));
        same = λ a o. ground (arith, done.1.same a o, has-append a xs ((fresh, v) ∷ []));
        refs = λ x. done.1.refs x;
      })

-- How many tasks the callback takes, from the first on, up to the first that it does not.
abbrev pub accepted : (ℕ → Value → Bool) → ℕ → Cells → ℕ
accepted collect n [] = 0
accepted collect n ((p, v) ∷ xs) = if collect n v then suc (accepted collect (suc n) xs) else 0

-- The tasks that are left, and how many were taken.
abbrev pub Collected : (ℕ → Value → Bool) → ℕ → Cells → Queue × ℕ → Mem → Type 0
Collected collect n xs r g =
    IsQueue g r.0 (drop (accepted collect n xs) xs) × (r.1 ≡ n + accepted collect n xs)

pub left_held :
    (m g : Mem) (p : Ptr) (v : Value) (xs : Cells)
    → ((x : Value) → held x ((p, v) ∷ xs) ≤ m.refs x)
    → ((x : Value) → g.refs x ≡ update m.refs v (m.refs v - 1) x)
    → (x : Value) → held x xs ≤ g.refs x
left_held m g p v xs h r x = ground (arith, h x, r x, ==_iff x v)

-- Collecting takes the done tasks from the first on, as long as the callback agrees, and leaves the
-- others in order: the loop ends, given one round more than there are tasks and a reference for each
-- of them, and it counts the tasks that it took.
pub collect_loop-Collected :
    (k : ℕ) (collect : ℕ → Value → Bool) (m : Mem) (q : Queue) (xs : Cells) (n : ℕ)
    → IsQueue m q xs
    → ((x : Value) → held x xs ≤ m.refs x)
    → length xs < k
    → Returns (Collected collect n xs) (collect_loop k collect (first_of xs null) q n m)
unfolding collect_loop
collect_loop-Collected zero collect m q xs n is h l = absurd (omega arith)
collect_loop-Collected (suc k) collect m q [] n is h l = returns (is, omega arith)
collect_loop-Collected (suc k) collect m q ((p, v) ∷ xs) n is h l =
    elim (Bool-cases (collect n v)) [
      | inl takes ↦
          (let mode : Mode = record { want = false; free = true } in
            let some_ref : 0 < m.refs v = ground (arith, h v, ==_self v) in
            rw (not_null is.chain.0, load-ok is.chain.0, takes, collect_loop)
              (bind (shift-cons m q p v xs mode is (λ _. some_ref)) λ r g t.
                mono
                  (collect_loop-Collected k collect g r.queue xs (suc n) t.queue
                    (left_held m g p v xs h t.refs) (omega arith))
                  (λ s e c. rw takes (c.0, omega (arith, c.1)))))
      | inr leaves ↦
          rw (not_null is.chain.0, load-ok is.chain.0, leaves, collect_loop)
            (returns (rw leaves (is, omega arith)))
    ]
