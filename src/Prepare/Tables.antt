-- ===== src/Prepare/Tables.antt =====
-- Tables from names to values, in their order.
use Prim.Native.String.{String}
use text.Mathlib.Text.{◌==◌ as str_eq}
use text.Mathlib.TextEquality.{eq_iff}
use ext_pmmpthread.Prelude.{
  ◌≡◌, refl, false, Option, none, some, List, [], ◌∷◌, if◌then◌else◌, Bool-cases, inl, inr, arith,
}

abbrev pub Table : Type 0 → Type 0
Table A = List (String × A)

module _ {A : Type 0} where
  -- zend_hash_find_ptr
  abbrev pub find : String → Table A → Option A
  find n [] = none
  find n ((m, x) ∷ rest) = if str_eq m n then some x else find n rest

  -- A change of the value that a name has.
  abbrev pub replace : String → A → Table A → Table A
  replace n y [] = []
  replace n y ((m, x) ∷ rest) = if str_eq m n then (m, y) ∷ rest else (m, x) ∷ replace n y rest

  -- Each name is there once.
  abbrev pub IsDistinct : Table A → Type 0
  IsDistinct [] = Unit
  IsDistinct ((n, x) ∷ rest) = (find n rest ≡ none) × IsDistinct rest

  pub find-replace :
      (n : String) (x y : A) (t : Table A) → find n t ≡ some x → find n (replace n y t) ≡ some y
  find-replace n x y [] h = ground arith
  find-replace n x y ((m, z) ∷ rest) h = elim (Bool-cases (str_eq m n)) [
    | inl e ↦ ground (arith, e)
    | inr e ↦ ground (arith, e, find-replace n x y rest)
  ]

  pub find-replace_other :
      (n k : String) (y : A) (t : Table A) → str_eq n k ≡ false → find k (replace n y t) ≡ find k t
  find-replace_other n k y [] h = refl
  find-replace_other n k y ((m, z) ∷ rest) h = elim (Bool-cases (str_eq m n)) [
    | inl e ↦ ground (arith, e, eq_iff m n)
    | inr e ↦ ground (arith, e, find-replace_other n k y rest h)
  ]
