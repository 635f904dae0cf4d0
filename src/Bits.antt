-- ===== src/Bits.antt =====
-- The words of flags that monitors keep, read bit by bit: `&`, `|` and `~` of the C code are
-- `bit_and`, `bit_or` and the complement at a width.
use Prim.Native.Nat.{min, max, bit_and, bit_or, digits, bit_and-bitwise, bit_or-bitwise}
use native.Mathlib.Nat.{pow-suc, le_refl}
use ext_pmmpthread.Prelude.{
  ℕ, zero, suc, ◌+◌, ◌-◌, ◌*◌, ◌/◌, ◌%◌, ◌^◌, ◌≤◌, ◌<◌, ◌≡◌, refl, Bool, false, not, ◌&&◌, ◌||◌,
  ◌==◌, arith,
}

-- Bit `i` of the word.
pub test_bit : ℕ → ℕ → Bool
test_bit zero a = a % 2 == 1
test_bit (suc i) a = test_bit i (a / 2)

-- Both operations go digit by digit, with `f` on a pair of digits and `z` on what is left of the
-- second word when the first has no more.
module _ (z : ℕ → ℕ) (f : ℕ → ℕ → ℕ) where
  -- Rounds beyond the first word's value make no difference.
  rounds : (k l a b : ℕ) → a ≤ k → a ≤ l → digits z f k a b ≡ digits z f l a b
  rounds zero zero a b p q = refl
  rounds (suc k) zero zero b p q = refl
  rounds zero (suc l) zero b p q = refl
  rounds (suc k) (suc l) zero b p q = refl
  rounds (suc k) zero (suc a) b p q = absurd (omega arith)
  rounds zero (suc l) (suc a) b p q = absurd (omega arith)
  rounds (suc k) (suc l) (suc a) b p q =
      omega (arith, rounds k l (suc a / 2) (b / 2) (omega arith) (omega arith))

  lowest :
      ((b : ℕ) → z b ≡ z (b / 2) * 2 + f 0 (b % 2))
      → (a b : ℕ) → digits z f a a b ≡ digits z f (a / 2) (a / 2) (b / 2) * 2 + f (a % 2) (b % 2)
  lowest zs zero b = zs b
  lowest zs (suc a) b =
      omega (arith, rounds a (suc a / 2) (suc a / 2) (b / 2) (omega arith) (omega arith))

bit_and_step : (a b : ℕ) → bit_and a b ≡ bit_and (a / 2) (b / 2) * 2 + min (a % 2) (b % 2)
bit_and_step a b = omega (
  arith,
  bit_and-bitwise a b,
  bit_and-bitwise (a / 2) (b / 2),
  lowest (λ b. 0) min (λ b. omega arith) a b,
)

bit_or_step : (a b : ℕ) → bit_or a b ≡ bit_or (a / 2) (b / 2) * 2 + max (a % 2) (b % 2)
bit_or_step a b = omega (
  arith,
  bit_or-bitwise a b,
  bit_or-bitwise (a / 2) (b / 2),
  lowest (λ b. b) max (λ b. omega arith) a b,
)

pub test_bit-and : (i a b : ℕ) → test_bit i (bit_and a b) ≡ (test_bit i a && test_bit i b)
unfolding test_bit
test_bit-and zero a b = ground (arith, bit_and_step a b)
test_bit-and (suc i) a b =
    let e : bit_and a b / 2 ≡ bit_and (a / 2) (b / 2) = omega (arith, bit_and_step a b) in
    rw e (test_bit-and i (a / 2) (b / 2))

pub test_bit-or : (i a b : ℕ) → test_bit i (bit_or a b) ≡ (test_bit i a || test_bit i b)
unfolding test_bit
test_bit-or zero a b = ground (arith, bit_or_step a b)
test_bit-or (suc i) a b =
    let e : bit_or a b / 2 ≡ bit_or (a / 2) (b / 2) = omega (arith, bit_or_step a b) in
    rw e (test_bit-or i (a / 2) (b / 2))

-- ~a at width w
abbrev pub complement : ℕ → ℕ → ℕ
complement w a = 2 ^ w - 1 - a

pub test_bit-complement :
    (w i a : ℕ) → i < w → a < 2 ^ w → test_bit i (complement w a) ≡ not (test_bit i a)
unfolding test_bit
test_bit-complement zero i a h l = absurd (omega arith)
test_bit-complement (suc w) zero a h l = ground (arith, pow-suc 2 w)
test_bit-complement (suc w) (suc i) a h l =
    let e : complement (suc w) a / 2 ≡ complement w (a / 2) = omega (arith, pow-suc 2 w) in
    rw e (test_bit-complement w i (a / 2) (omega arith) (omega (arith, pow-suc 2 w)))

-- A word all of whose bits are clear is 0.
pub eq-zero_of_bits : (w a : ℕ) → a < 2 ^ w → ((i : ℕ) → i < w → test_bit i a ≡ false) → a ≡ 0
unfolding test_bit
eq-zero_of_bits zero a l h = omega arith
eq-zero_of_bits (suc w) a l h = ground (
  arith,
  h 0 (omega arith),
  eq-zero_of_bits w (a / 2) (omega (arith, pow-suc 2 w)) (λ i p. h (suc i) (omega arith)),
)

pub test_bit-zero : (i : ℕ) → test_bit i 0 ≡ false
unfolding test_bit
test_bit-zero zero = refl
test_bit-zero (suc i) = test_bit-zero i

pub bit_and-le : (n a b : ℕ) → a ≤ n → bit_and a b ≤ a
bit_and-le zero zero b h = ground (arith, bit_and-bitwise 0 b)
bit_and-le zero (suc a) b h = absurd (omega arith)
bit_and-le (suc n) zero b h = ground (arith, bit_and-bitwise 0 b)
bit_and-le (suc n) (suc a) b h =
    omega (arith, bit_and_step (suc a) b, bit_and-le n (suc a / 2) (b / 2) (omega arith))

bit_and-zero_right : (n a : ℕ) → a ≤ n → bit_and a 0 ≡ 0
bit_and-zero_right zero zero h = omega (arith, bit_and-bitwise 0 0)
bit_and-zero_right zero (suc a) h = absurd (omega arith)
bit_and-zero_right (suc n) zero h = omega (arith, bit_and-le 0 0 0 (le_refl 0))
bit_and-zero_right (suc n) (suc a) h =
    ground (arith, bit_and_step (suc a) 0, bit_and-zero_right n (suc a / 2) (omega arith))

pub bit_and-le_right : (n a b : ℕ) → b ≤ n → bit_and a b ≤ b
bit_and-le_right zero a zero h = omega (arith, bit_and-zero_right a a (le_refl a))
bit_and-le_right zero a (suc b) h = absurd (omega arith)
bit_and-le_right (suc n) a zero h = omega (arith, bit_and-zero_right a a (le_refl a))
bit_and-le_right (suc n) a (suc b) h =
    omega (arith, bit_and_step a (suc b), bit_and-le_right n (a / 2) (suc b / 2) (omega arith))
