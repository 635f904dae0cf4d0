-- ===== src/Monitor/Timeout.antt =====
-- The deadline that a wait with a timeout hands to `pthread_cond_timedwait`.
use ext_pmmpthread.Prelude.{
  ℕ, ◌+◌, ◌*◌, ◌%◌, ◌<◌, ◌≤◌, ◌≡◌, refl, ◌↔◌, ℤ, pos, negsuc, pos_part, neg_part, arith,
}
use ext_pmmpthread.Monitor.{Deadline, wait_deadline}

-- The deadline lies exactly the timeout after, or for a negative timeout before, the time of day;
-- the negative parts are on the other side of the equation.
pub record Meets (sec usec : ℕ) (timeout : ℤ) (d : Deadline) : Type 0 where
  pub exact :
      pos_part d.sec * 1000000000 + pos_part d.nsec + neg_part timeout * 1000
      ≡ (sec * 1000000 + usec + pos_part timeout) * 1000
        + neg_part d.sec * 1000000000
        + neg_part d.nsec
  pub less_than_a_second : pos_part d.nsec + neg_part d.nsec < 1000000000
  pub normalised : neg_part d.nsec ≡ 0 ↔ (neg_part timeout % 1000000 ≤ usec)

-- From a normalised time of day, for any timeout, the deadline lies exactly the timeout after it, and
-- its nanoseconds are less than a second in size. They are negative, which
-- `pthread_cond_timedwait` does not take, exactly where the timeout is negative and what it has
-- beyond whole seconds is more than the microseconds of the time of day.
pub wait_deadline_lem :
    (sec usec : ℕ) (timeout : ℤ)
    → usec < 1000000
    → Meets sec usec timeout (wait_deadline sec usec timeout)
unfolding wait_deadline
wait_deadline_lem sec usec (pos n) h = record {
  exact = omega arith;
  less_than_a_second = omega arith;
  normalised = (λ e. omega arith, λ e. refl);
}
wait_deadline_lem sec usec (negsuc m) h = record {
  exact = ground arith;
  less_than_a_second = ground arith;
  normalised = (λ e. ground arith, λ e. ground arith);
}
