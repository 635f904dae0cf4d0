-- ===== src/Routine/Flags.antt =====
-- Tests of flags in the words of monitors, after flags have been set and cleared (src/monitor.h).
use Prim.Native.Nat.{bit_and}
use native.Mathlib.Nat.{le_refl}
use ext_pmmpthread.Prelude.{ℕ, ◌^◌, ◌<◌, ◌≡◌, sym, ◌∙◌, ◌↔◌, false, ◌&&◌, ◌||◌, arith}
use ext_pmmpthread.Bits.{
  test_bit, test_bit-and, test_bit-or, test_bit-complement, complement, eq-zero_of_bits,
  test_bit-zero, bit_and-le_right,
}
use ext_pmmpthread.Monitor.{width}
use ext_pmmpthread.Routine.{has, add, remove}

-- No flag of one word is in the other.
abbrev Clear : ℕ → ℕ → Type 0
Clear a g = (i : ℕ) → i < width → (test_bit i a && test_bit i g) ≡ false

Clear-iff : (a g : ℕ) → g < 2 ^ width → (bit_and a g ≡ 0) ↔ Clear a g
Clear-iff a g h = (
  λ e i p. sym (test_bit-and i a g) ∙ rw e (test_bit-zero i),
  λ c.
      eq-zero_of_bits width (bit_and a g) (omega (arith, h, bit_and-le_right g a g (le_refl g)))
        (λ i p. test_bit-and i a g ∙ c i p),
)

-- A word in which a flag is set exactly where it is set in one of two.
has-by_bits :
    (a b c g : ℕ)
    → g < 2 ^ width
    → ((i : ℕ)
        → i < width
        → (test_bit i a && test_bit i g)
          ≡ ((test_bit i b && test_bit i g) || (test_bit i c && test_bit i g)))
    → has g a ≡ (has g b || has g c)
has-by_bits a b c g h bits = ground (arith, none_a, none_bc)
  where
    none_a : bit_and a g ≡ 0 → (bit_and b g ≡ 0) × (bit_and c g ≡ 0)
    none_a e = (
      (Clear-iff b g h).1 (λ i p. ground (arith, (Clear-iff a g h).0 e i p, bits i p)),
      (Clear-iff c g h).1 (λ i p. ground (arith, (Clear-iff a g h).0 e i p, bits i p)),
    )

    none_bc : bit_and b g ≡ 0 → bit_and c g ≡ 0 → bit_and a g ≡ 0
    none_bc eb ec =
        (Clear-iff a g h).1
          (λ i p. ground (arith, (Clear-iff b g h).0 eb i p, (Clear-iff c g h).0 ec i p, bits i p))

pub has-add : (f g s : ℕ) → g < 2 ^ width → has g (add f s) ≡ (has g s || has g f)
has-add f g s h = has-by_bits (add f s) s f g h (λ i p. ground (arith, test_bit-or i s f))

-- Clearing flags leaves the others.
pub has-remove :
    (f g s : ℕ) → f < 2 ^ width → g < 2 ^ width → bit_and f g ≡ 0 → has g (remove f s) ≡ has g s
has-remove f g s hf hg d = ground (
  arith,
  has-by_bits (remove f s) s 0 g hg (λ i p. ground (
    arith,
    test_bit-and i s (complement width f),
    test_bit-complement width i f p hf,
    (Clear-iff f g hg).0 d i p,
    test_bit-zero i,
  )),
  (Clear-iff 0 g hg).1 (λ i p. ground (arith, test_bit-zero i)),
)
