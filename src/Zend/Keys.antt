-- ===== src/Zend/Keys.antt =====
-- Keys of a PHP hash table.
use Prim.Native.String.{String}
use text.Mathlib.Text.{◌==◌ as str_eq}
use text.Mathlib.TextEquality.{eq_iff}
use ext_pmmpthread.Prelude.{ℕ, ◌≡◌, refl, ◌↔◌, Bool, true, false, ◌==◌, arith}

-- An integer key is the 64-bit pattern of its zend_long.
pub data Key : Type 0 where
  index : ℕ → Key
  name : String → Key

unfoldable pub key_eq : Key → Key → Bool
key_eq (index i) (index j) = i == j
key_eq (name s) (name t) = str_eq s t
key_eq (index i) (name t) = false
key_eq (name s) (index j) = false

pub key_eq_iff : (j k : Key) → (key_eq j k ≡ true) ↔ (j ≡ k)
unfolding key_eq
key_eq_iff (index i) (index j) = ground arith
key_eq_iff (name s) (name t) = ground (arith, eq_iff s t)
key_eq_iff (index i) (name t) = ground arith
key_eq_iff (name s) (index j) = ground arith

pub key_eq_self : (k : Key) → key_eq k k ≡ true
key_eq_self k = (key_eq_iff k k).1 refl
