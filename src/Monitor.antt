-- ===== src/Monitor.antt =====
-- src/monitor.c and src/monitor.h: a recursive mutex, a condition variable and a word of state
-- flags. `pthread_mutex_*` and `pthread_cond_*` are those of POSIX: a mutex of type
-- PTHREAD_MUTEX_RECURSIVE belongs to one thread and counts its locks.
pub mod Flags
pub mod Threads
pub mod Waiting
pub mod Timeout
mod Tests
use Prim.Native.Nat.{bit_and, bit_or}
use ext_pmmpthread.Prelude.{
  ℕ, zero, suc, ◌+◌, ◌-◌, ◌*◌, ◌/◌, ◌%◌, ◌^◌, Bool, true, false, ◌&&◌, ◌==◌, ltb, if◌then◌else◌,
  List, [], ◌∷◌, Option, none, some, ℤ, pos, negsuc, sub_ℤ, same,
}
use ext_pmmpthread.Bits.{complement}

abbrev pub Tid : Type 0
Tid = ℕ

-- `alive` until the mutex and the condition are destroyed; `depth` counts the locks that `owner`
-- holds, 0 when the mutex is free; `waiting` are the threads blocked on the condition.
pub record Monitor : Type 0 where
  pub state : ℕ
  pub alive : Bool
  pub owner : Tid
  pub depth : ℕ
  pub waiting : List Tid

-- pmmpthread_monitor_state_t is an unsigned long.
abbrev pub width : ℕ
width = 64

abbrev pub nothing : ℕ
nothing = 0

abbrev pub started : ℕ
started = 2 ^ 0

abbrev pub running : ℕ
running = 2 ^ 1

abbrev pub joined : ℕ
joined = 2 ^ 2

abbrev pub error : ℕ
error = 2 ^ 3

abbrev pub ready : ℕ
ready = 2 ^ 4

abbrev pub collect_garbage : ℕ
collect_garbage = 2 ^ 5

abbrev pub exit : ℕ
exit = 2 ^ 6

abbrev pub await_join : ℕ
await_join = 2 ^ 7

-- A call returns, or blocks until another thread gives up the mutex: then it is made again.
pub data Out (A : Type 0) : Type 0 where
  ok : A → Monitor → Out A
  blocked : Out A

abbrev pub Act : Type 0 → Type 0
Act A = Monitor → Out A

abbrev pub pure : {A : Type 0} → A → Act A
pure = ok

module _ {A B : Type 0} where
  abbrev pub and_then : Out A → (A → Act B) → Out B
  and_then (ok a m) k = k a m
  and_then blocked k = blocked

  infixl 5 ◌>>=◌ ◌>>◌
  abbrev pub ◌>>=◌ : Act A → (A → Act B) → Act B
  c >>= k = λ m. and_then (c m) k

  abbrev pub ◌>>◌ : Act A → Act B → Act B
  c >> d = c >>= λ _. d

-- `pthread_mutex_init` and `pthread_cond_init` may each fail; what was made is then taken down.
unfoldable pub init : (mutex cond : Bool) → Option Monitor
init true true = some (record { state = nothing; alive = true; owner = 0; depth = 0; waiting = [] })
init true false = none
init false cond = none

unfoldable pub destroy : Monitor → Monitor
destroy m = record m { alive = false }

-- `pthread_mutex_lock` fails on a mutex that is not there.
unfoldable pub lock : Tid → Act Bool
lock t m =
    if m.alive
    then if m.depth == 0
      then ok true (record m { owner = t; depth = 1 })
      else if m.owner == t
      then ok true (record m { depth = suc m.depth })
      else blocked
    else ok false m

-- `pthread_mutex_unlock` fails in a thread that does not own the mutex.
unfoldable pub unlock : Tid → Act Bool
unlock t m =
    if m.alive && (m.owner == t) && ltb 0 m.depth
    then ok true (record m { depth = m.depth - 1 })
    else ok false m

abbrev pub set_state : (ℕ → ℕ) → Act (Unit {0})
set_state f m = ok tt (record m { state = f m.state })

abbrev pub get_state : Act ℕ
get_state m = ok m.state m

unfoldable pub check : Tid → ℕ → Act ℕ
unfolding lock unlock
check t state = do
  got ← lock t
  if got then (do s ← get_state; unlock t; pure (bit_and s state)) else pure nothing

-- `pthread_cond_broadcast` and `pthread_cond_signal`; 0 is success.
unfoldable pub notify : Act ℕ
notify m = ok 0 (record m { waiting = [] })

unfoldable pub notify_one : Act ℕ
notify_one m = ok 0 (record m { waiting = elim m.waiting [ [] ↦ [] | t ∷ ts ↦ ts ] })

unfoldable pub add : Tid → ℕ → Act (Unit {0})
unfolding lock unlock notify
add t state = do
  got ← lock t
  if got then (do set_state (λ s. bit_or s state); notify; unlock t; pure tt) else pure tt

unfoldable pub remove : Tid → ℕ → Act (Unit {0})
unfolding lock unlock notify
remove t state = do
  got ← lock t
  if got
      then (do set_state (λ s. bit_and s (complement width state)); notify; unlock t; pure tt)
      else pure tt

-- What `pmmpthread_monitor_wait` passes to `pthread_cond_timedwait`, from the time of day that
-- `gettimeofday` gave and a timeout in microseconds.
pub record Deadline : Type 0 where
  pub sec : ℤ
  pub nsec : ℤ

-- C divides towards zero, so the quotients and remainders of a negative number are those of its size
-- with the sign changed. For a negative timeout of size `k` the sum of `usec` and the remainder is
-- `usec - k % 1000000` or, where that is negative, the size of it with the sign changed; of the two
-- subtractions written here the other one is 0.
unfoldable pub wait_deadline : (sec usec : ℕ) → (timeout : ℤ) → Deadline
wait_deadline sec usec (pos n) = record {
  sec = pos (sec + n / 1000000 + (usec + n % 1000000) / 1000000);
  nsec = pos ((usec + n % 1000000) % 1000000 * 1000);
}
wait_deadline sec usec (negsuc m) =
    let k = suc m in
    record {
      sec =
          sub_ℤ (sec + (usec - k % 1000000) / 1000000)
            (k / 1000000 + (k % 1000000 - usec) / 1000000);
      nsec = sub_ℤ ((usec - k % 1000000) % 1000000 * 1000) ((k % 1000000 - usec) % 1000000 * 1000);
    }

-- The first half of `pthread_cond_wait`: the thread joins the waiters and gives one lock back. It
-- fails in a thread that does not own the mutex. The second half is a lock, once it is woken.
unfoldable pub cond_wait : Tid → Act Bool
unfolding unlock
cond_wait t = do
  freed ← unlock t
  if freed then (λ m. ok true (record m { waiting = t ∷ m.waiting })) else pure false

-- How a call of `pmmpthread_monitor_wait` begins: on the condition, until a deadline where there is
-- a timeout, or with an error at once.
pub data Begun : Type 0 where
  asleep_until : Option Deadline → Begun
  failed : Begun

-- `clock` is what `gettimeofday` gives, seconds and microseconds, if it succeeds.
unfoldable pub wait : Tid → (timeout : ℤ) → (clock : Option (ℕ × ℕ)) → Act Begun
unfolding cond_wait wait_deadline
wait t timeout clock =
    if same 0 timeout
    then (do slept ← cond_wait t; pure (if slept then asleep_until none else failed))
    else elim clock [
      | none ↦ pure failed
      | some now ↦ (do
        slept ← cond_wait t
        pure (if slept then asleep_until (some (wait_deadline now.0 now.1 timeout)) else failed))
    ]

-- Where a round of the loop of `pmmpthread_monitor_wait_until` leads.
pub data Round : Type 0 where
  returned asleep : Round

-- `if (pmmpthread_monitor_wait(m, 0) != 0) break;`
sleep : Tid → Act Round
unfolding wait
sleep t = do
  begun ← wait t (pos 0) none
  elim begun [ failed ↦ (do unlock t; pure returned) | asleep_until _ ↦ pure asleep ]

-- One round, with the mutex held: the flags are checked, and the thread goes to sleep on the
-- condition, or gives the mutex back and returns, also when the wait fails.
unfoldable pub wait_until_round : Tid → ℕ → Act Round
unfolding check sleep unlock
wait_until_round t state = do
  hit ← check t state
  if hit == 0 then sleep t else (do unlock t; pure returned)

-- The call up to the end of its first round.
unfoldable pub wait_until : Tid → ℕ → Act Round
unfolding wait_until_round
wait_until t state = do got ← lock t; if got then wait_until_round t state else pure returned

-- A woken thread takes the mutex again and goes round.
unfoldable pub wait_until_woken : Tid → ℕ → Act Round
unfolding wait_until_round
wait_until_woken t state = do _ ← lock t; wait_until_round t state
