-- ===== src/Zend/Erased.antt =====
-- What can be found in a table after a key is deleted.
use ext_pmmpthread.Prelude.{
  ℕ, ◌≡◌, refl, Bool, true, false, none, some, [], ◌∷◌, ◌++◌, if◌then◌else◌, arith,
}
use ext_pmmpthread.Zend.Keys.{Key, key_eq, key_eq_iff}
use ext_pmmpthread.Zend.Buckets.{Slots, lookup, erase, holes, Unique}
use ext_pmmpthread.Zend.Ends.{lookup-holes}

module _ {V : Type 0} where
  pub lookup-trailing : (j : Key) (s : Slots V) (n : ℕ) → lookup j (s ++ holes n) ≡ lookup j s
  lookup-trailing j [] n = lookup-holes V n j
  lookup-trailing j (none ∷ s) n = lookup-trailing j s n
  lookup-trailing j (some (i, w) ∷ s) n = rw (lookup-trailing j s n) refl

  pub lookup-erase :
      (j k : Key) (s : Slots V)
      → Unique s
      → lookup j (erase k s) ≡ (if key_eq k j then none else lookup j s)
  lookup-erase j k [] u = ground arith
  lookup-erase j k (none ∷ s) u = lookup-erase j k s u
  lookup-erase j k (some (i, w) ∷ s) u =
      erased_head (key_eq i k) j k i w s refl u.0 (lookup-erase j k s u.1)
    where
      erased_head :
          (b : Bool) (j k i : Key) (w : V) (s : Slots V)
          → key_eq i k ≡ b
          → lookup i s ≡ none
          → lookup j (erase k s) ≡ (if key_eq k j then none else lookup j s)
          → lookup j (if b then none ∷ s else some (i, w) ∷ erase k s)
            ≡ (if key_eq k j then none else if key_eq i j then some w else lookup j s)
      erased_head true j k i w s h u r =
          ground (arith, key_eq_iff i k, key_eq_iff k j, key_eq_iff i j)
      erased_head false j k i w s h u r =
          ground (arith, key_eq_iff i k, key_eq_iff k j, key_eq_iff i j)
