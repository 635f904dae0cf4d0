-- ===== src/Prelude/Integers.antt =====
-- Signed numbers, under the library's names.
use Prim.Native.Nat.{ℕ, suc, ◌-◌}
use mathlib.Core.Bool.{Bool, true, false}
use ext_pmmpthread.Prelude.Tests.{ltb, leb, ◌==◌, if◌then◌else◌}

-- `negsuc n` is -1 - n.
pub data ℤ : Type 0 where
  pos negsuc : ℕ → ℤ

-- The two parts of an integer, of which one is 0.
abbrev pub pos_part : ℤ → ℕ
pos_part (pos n) = n
pos_part (negsuc n) = 0

abbrev pub neg_part : ℤ → ℕ
neg_part (pos n) = 0
neg_part (negsuc n) = suc n

-- a - b, as an integer.
abbrev pub sub_ℤ : ℕ → ℕ → ℤ
sub_ℤ a b = if leb b a then pos (a - b) else negsuc (b - a - 1)

-- n >= z
abbrev pub at_least : ℕ → ℤ → Bool
at_least n (pos k) = leb k n
at_least n (negsuc k) = true

-- z < n
abbrev pub below : ℤ → ℕ → Bool
below (pos k) n = ltb k n
below (negsuc k) n = true

-- y == z
abbrev pub same_ℤ : ℤ → ℤ → Bool
same_ℤ (pos n) (pos k) = n == k
same_ℤ (negsuc n) (negsuc k) = n == k
same_ℤ _ _ = false

-- n == z
abbrev pub same : ℕ → ℤ → Bool
same n (pos k) = n == k
same n (negsuc k) = false
