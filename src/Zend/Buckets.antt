-- ===== src/Zend/Buckets.antt =====
-- The buckets of a hash table, and what the engine's functions do to them.
use ext_pmmpthread.Prelude.{
  ℕ, zero, suc, ◌≡◌, Option, none, some, List, [], ◌∷◌, map, length, ltb, if◌then◌else◌,
}
use ext_pmmpthread.Zend.Keys.{Key, key_eq}

-- A bucket, or a hole.
abbrev pub Slots : Type 0 → Type 0
Slots V = List (Option (Key × V))

module _ {V : Type 0} where
  abbrev pub lookup : Key → Slots V → Option V
  lookup k [] = none
  lookup k (none ∷ s) = lookup k s
  lookup k (some (j, v) ∷ s) = if key_eq j k then some v else lookup k s

  abbrev pub entries : Slots V → List (Key × V)
  entries [] = []
  entries (none ∷ s) = entries s
  entries (some e ∷ s) = e ∷ entries s

  abbrev pub compact : Slots V → Slots V
  compact s = map some (entries s)

  abbrev pub put : Key → V → Slots V → Slots V
  put k v [] = []
  put k v (none ∷ s) = none ∷ put k v s
  put k v (some (j, w) ∷ s) = if key_eq j k then some (j, v) ∷ s else some (j, w) ∷ put k v s

  abbrev pub erase : Key → Slots V → Slots V
  erase k [] = []
  erase k (none ∷ s) = none ∷ erase k s
  erase k (some (j, w) ∷ s) = if key_eq j k then none ∷ s else some (j, w) ∷ erase k s

  abbrev pub holes : ℕ → Slots V
  holes zero = []
  holes (suc n) = none ∷ holes n

  -- No key has two buckets.
  abbrev pub Unique : Slots V → Type 0
  Unique [] = Unit
  Unique (none ∷ s) = Unique s
  Unique (some (k, v) ∷ s) = (lookup k s ≡ none) × Unique s

  -- The first bucket at or after the position, or the end.
  abbrev pub live_from : Slots V → ℕ → ℕ
  live_from [] p = p
  live_from (none ∷ s) zero = suc (live_from s zero)
  live_from (some e ∷ s) zero = zero
  live_from (b ∷ s) (suc p) = suc (live_from s p)

  abbrev pub bucket_at : Slots V → ℕ → Option (Key × V)
  bucket_at [] p = none
  bucket_at (b ∷ s) zero = b
  bucket_at (b ∷ s) (suc p) = bucket_at s p

  -- The last bucket before the position, if there is one.
  abbrev pub live_before : Slots V → ℕ → Option ℕ
  live_before [] p = none
  live_before (b ∷ s) zero = none
  live_before (none ∷ s) (suc p) = elim (live_before s p) [ none ↦ none | some q ↦ some (suc q) ]
  live_before (some e ∷ s) (suc p) = elim (live_before s p) [
    | none ↦ some 0
    | some q ↦ some (suc q)
  ]

  -- The last bucket, or the end.
  abbrev pub end_of : Slots V → ℕ
  end_of s = elim (live_before s (length s)) [ none ↦ length s | some q ↦ q ]

  abbrev pub forward_from : Slots V → ℕ → Option ℕ
  forward_from s p =
      if ltb (live_from s p) (length s) then some (live_from s (suc (live_from s p))) else none

  abbrev pub backward_from : Slots V → ℕ → Option ℕ
  backward_from s p =
      if ltb p (length s)
      then some (elim (live_before s p) [ none ↦ length s | some q ↦ q ])
      else none
