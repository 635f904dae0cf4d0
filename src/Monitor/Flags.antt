-- ===== src/Monitor/Flags.antt =====
-- What the operations do to single flags.
use Prim.Native.Nat.{bit_and, bit_or}
use native.Mathlib.Nat.{le_refl}
use ext_pmmpthread.Prelude.{
  ℕ, ◌^◌, ◌<◌, ◌≡◌, refl, sym, ◌∙◌, true, false, not, ◌&&◌, ◌||◌, ◌↔◌, ◌⊎◌, inl, inr, [], arith,
}
use ext_pmmpthread.Bits.{
  test_bit, test_bit-and, test_bit-or, test_bit-complement, complement, eq-zero_of_bits,
  test_bit-zero, bit_and-le,
}
use ext_pmmpthread.Monitor.{Tid, Monitor, width, Out, ok, check, add, remove}

-- The thread can take the mutex at once: it is there, and free or the thread's own.
abbrev pub Lockable : Tid → Monitor → Type 0
Lockable t m = (m.alive ≡ true) × ((m.depth ≡ 0) ⊎ (m.owner ≡ t))

-- The mutex is as it was: free, or the same thread's as often.
pub record SameMutex (m m' : Monitor) : Type 0 where
  pub alive : m'.alive ≡ m.alive
  pub depth : m'.depth ≡ m.depth
  pub owner : (m.depth ≡ 0) ⊎ (m'.owner ≡ m.owner)

-- A call by a thread that can take the mutex returns, gives the mutex back as it was, and leaves a
-- monitor of which the rest is said by `P`.
abbrev pub Does : {A : Type 0} → Out A → A → Monitor → (Monitor → Type 0) → Type 0
Does r a m P = (m' : Monitor) × (r ≡ ok a m') × SameMutex m m' × P m'

module _ (t : Tid) (s : ℕ) (m : Monitor) where
  pub check-bit_and :
      Lockable t m
      → Does
          (check t s m)
          (bit_and m.state s)
          m
          (λ m'. (m'.state ≡ m.state) × (m'.waiting ≡ m.waiting))
  unfolding check
  check-bit_and (a, inl free) = (record m { owner = t }, ground arith, ground arith, (refl, refl))
  check-bit_and (a, inr own) = (record m { owner = t }, ground arith, ground arith, (refl, refl))

  pub add-bit_or :
      Lockable t m → Does (add t s m) tt m (λ m'. (m'.state ≡ bit_or m.state s) × (m'.waiting ≡ []))
  unfolding add
  add-bit_or (a, inl free) = (
    record m { owner = t; state = bit_or m.state s; waiting = [] },
    ground arith,
    ground arith,
    (refl, refl),
  )
  add-bit_or (a, inr own) = (
    record m { owner = t; state = bit_or m.state s; waiting = [] },
    ground arith,
    ground arith,
    (refl, refl),
  )

  pub remove-bit_and :
      Lockable t m
      → Does
          (remove t s m)
          tt
          m
          (λ m'. (m'.state ≡ bit_and m.state (complement width s)) × (m'.waiting ≡ []))
  unfolding remove
  remove-bit_and (a, inl free) = (
    record m { owner = t; state = bit_and m.state (complement width s); waiting = [] },
    ground arith,
    ground arith,
    (refl, refl),
  )
  remove-bit_and (a, inr own) = (
    record m { owner = t; state = bit_and m.state (complement width s); waiting = [] },
    ground arith,
    ground arith,
    (refl, refl),
  )

  -- `pmmpthread_monitor_add` sets the flags that it is given and no others, wakes every waiter and
  -- leaves the mutex as it found it, when the calling thread can take the mutex.
  pub add-flags :
      Lockable t m
      → Does (add t s m) tt m (λ m'.
        (m'.waiting ≡ []) × ((i : ℕ) → test_bit i m'.state ≡ (test_bit i m.state || test_bit i s)))
  add-flags l =
      let (m', ran, same, d) = add-bit_or l in
      (m', ran, same, (d.1, λ i. rw d.0 (test_bit-or i m.state s)))

  -- `pmmpthread_monitor_remove` clears the flags that it is given and no others, wakes every waiter
  -- and leaves the mutex as it found it, for flags that fit the 64-bit word.
  pub remove-flags :
      Lockable t m
      → s < 2 ^ width
      → Does (remove t s m) tt m (λ m'.
        (m'.waiting ≡ [])
        × ((i : ℕ) → i < width → test_bit i m'.state ≡ (test_bit i m.state && not (test_bit i s))))
  remove-flags l fits =
      let (m', ran, same, d) = remove-bit_and l in
      (
        m',
        ran,
        same,
        (
          d.1,
          λ i h. rw (
            d.0,
            test_bit-and i m.state (complement width s),
            test_bit-complement width i s h fits,
          ),
        ),
      )

  -- `pmmpthread_monitor_check` changes nothing and answers 0 exactly when none of the flags that it
  -- is asked for is set.
  pub check-flags :
      Lockable t m
      → m.state < 2 ^ width
      → (r : ℕ) × Does (check t s m) r m (λ m'. (m'.state ≡ m.state) × (m'.waiting ≡ m.waiting))
        × ((r ≡ 0) ↔ ((i : ℕ) → i < width → (test_bit i m.state && test_bit i s) ≡ false))
  check-flags l fits = (bit_and m.state s, check-bit_and l, (none_set, all_clear))
    where
      none_set :
          bit_and m.state s ≡ 0 → (i : ℕ) → i < width → (test_bit i m.state && test_bit i s) ≡ false
      none_set e i h = sym (test_bit-and i m.state s) ∙ rw e (test_bit-zero i)

      all_clear :
          ((i : ℕ) → i < width → (test_bit i m.state && test_bit i s) ≡ false)
          → bit_and m.state s ≡ 0
      all_clear h =
          eq-zero_of_bits width (bit_and m.state s)
            (omega (arith, bit_and-le m.state m.state s (le_refl m.state)))
            (λ i p. test_bit-and i m.state s ∙ h i p)
