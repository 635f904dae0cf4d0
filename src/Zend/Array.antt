-- ===== src/Zend/Array.antt =====
-- A hash table made of its buckets, which shows that the laws of the engine's tables can hold. It
-- closes the holes whenever a key is added.
use ext_pmmpthread.Prelude.{
  ℕ, suc, ◌≤◌, ◌≡◌, refl, ◌∙◌, inr, true, false, Option, none, some, [], ◌∷◌, ◌++◌, length,
  if◌then◌else◌, leb, arith,
}
use mathlib.Core.List.{append-nil}
use ext_pmmpthread.Zend.{ZendHash}
use ext_pmmpthread.Zend.Keys.{Key, key_eq, key_eq_iff}
use ext_pmmpthread.Zend.Buckets.{
  Slots, lookup, entries, compact, put, erase, Unique, live_from, end_of, forward_from,
  backward_from, bucket_at,
}

abbrev pub room : Key → ℕ
room (Key.index i) = suc i
room (Key.name s) = 0

abbrev pub larger : ℕ → ℕ → ℕ
larger a b = if leb a b then b else a

module _ {V : Type 0} where
  pub put-absent :
      (j k : Key) (v : V) (s : Slots V) → lookup j s ≡ none → lookup j (put k v s) ≡ none
  put-absent j k v [] h = refl
  put-absent j k v (none ∷ s) h = put-absent j k v s h
  put-absent j k v (some (i, w) ∷ s) h = ground (arith, put-absent j k v s)

  pub put-Unique : (k : Key) (v : V) (s : Slots V) → Unique s → Unique (put k v s)
  put-Unique k v [] u = tt
  put-Unique k v (none ∷ s) u = put-Unique k v s u
  put-Unique k v (some (i, w) ∷ s) u =
      elim (key_eq i k) as (λ b. Unique (if b then some (i, v) ∷ s else some (i, w) ∷ put k v s)) [
        | true ↦ u
        | false ↦ (put-absent i k v s u.0, put-Unique k v s u.1)
      ]

  pub erase-absent : (j k : Key) (s : Slots V) → lookup j s ≡ none → lookup j (erase k s) ≡ none
  erase-absent j k [] h = refl
  erase-absent j k (none ∷ s) h = erase-absent j k s h
  erase-absent j k (some (i, w) ∷ s) h = ground (arith, erase-absent j k s)

  pub erase-Unique : (k : Key) (s : Slots V) → Unique s → Unique (erase k s)
  erase-Unique k [] u = tt
  erase-Unique k (none ∷ s) u = erase-Unique k s u
  erase-Unique k (some (i, w) ∷ s) u =
      elim (key_eq i k) as (λ b. Unique (if b then none ∷ s else some (i, w) ∷ erase k s)) [
        | true ↦ u.1
        | false ↦ (erase-absent i k s u.0, erase-Unique k s u.1)
      ]

  pub compact-lookup : (j : Key) (s : Slots V) → lookup j (compact s) ≡ lookup j s
  compact-lookup j [] = refl
  compact-lookup j (none ∷ s) = compact-lookup j s
  compact-lookup j (some (i, w) ∷ s) = rw (compact-lookup j s)

  pub compact-Unique : (s : Slots V) → Unique s → Unique (compact s)
  compact-Unique [] u = tt
  compact-Unique (none ∷ s) u = compact-Unique s u
  compact-Unique (some (i, w) ∷ s) u = (compact-lookup i s ∙ u.0, compact-Unique s u.1)

  pub append-absent :
      (j k : Key) (v : V) (s : Slots V)
      → lookup j s ≡ none
      → key_eq k j ≡ false
      → lookup j (s ++ some (k, v) ∷ []) ≡ none
  append-absent j k v [] h ne = rw ne
  append-absent j k v (none ∷ s) h ne = append-absent j k v s h ne
  append-absent j k v (some (i, w) ∷ s) h ne = ground (arith, append-absent j k v s)

  pub append-Unique :
      (k : Key) (v : V) (s : Slots V)
      → lookup k s ≡ none
      → Unique s
      → Unique (s ++ some (k, v) ∷ [])
  append-Unique k v [] h u = (refl, tt)
  append-Unique k v (none ∷ s) h u = append-Unique k v s h u
  append-Unique k v (some (i, w) ∷ s) h u = (
    append-absent i k v s u.0 (ground (arith, key_eq_iff i k, key_eq_iff k i)),
    append-Unique k v s (ground arith) u.1,
  )

  -- A number above every integer key.
  abbrev pub next_of : Slots V → ℕ
  next_of [] = 0
  next_of (none ∷ s) = next_of s
  next_of (some (k, v) ∷ s) = larger (room k) (next_of s)

  pub next_of-fresh : (n : ℕ) (s : Slots V) → next_of s ≤ n → lookup (Key.index n) s ≡ none
  unfolding key_eq
  next_of-fresh n [] h = refl
  next_of-fresh n (none ∷ s) h = next_of-fresh n s h
  next_of-fresh n (some (Key.index i, v) ∷ s) h = ground (arith, next_of-fresh n s)
  next_of-fresh n (some (Key.name t, v) ∷ s) h = ground (arith, next_of-fresh n s)

  -- The buckets after an update of a key with what the table holds for it.
  abbrev pub updated : Option V → Key → V → Slots V → Slots V
  updated none k v s = compact s ++ some (k, v) ∷ []
  updated (some w) k v s = put k v s

  pub updated-Unique :
      (o : Option V) (k : Key) (v : V) (s : Slots V)
      → lookup k s ≡ o
      → Unique s
      → Unique (updated o k v s)
  updated-Unique none k v s h u =
      append-Unique k v (compact s) (compact-lookup k s ∙ h) (compact-Unique s u)
  updated-Unique (some w) k v s h u = put-Unique k v s u

  abbrev pub erased : Option V → Key → (s : Slots V) → Unique s → Option ((t : Slots V) × Unique t)
  erased none k s u = none
  erased (some w) k s u = some (erase k s, erase-Unique k s u)

abbrev pub array : (V : Type 0) → ZendHash V
array V = record {
  Table = (s : Slots V) × Unique s;
  slots = λ t. t.0;
  unique = λ t. t.1;
  init = ([], tt);
  slots-init = refl;
  find = λ t k. lookup k t.0;
  find-lookup = λ t k. refl;
  num_elements = λ t. length (entries t.0);
  num_elements-entries = λ t. refl;
  update =
      λ t k v. (updated (lookup k t.0) k v t.0, updated-Unique (lookup k t.0) k v t.0 refl t.1);
  update_old = λ t k v w h. rw (h, updated);
  update_new = λ t k v h. inr (rw (h, updated));
  del = λ t k. erased (lookup k t.0) k t.0 t.1;
  del_absent = λ t k h. rw (h, erased);
  del_present = λ t k w h.
      ((erase k t.0, erase-Unique k t.0 t.1), rw (h, erased), (0, append-nil (erase k t.0)));
  next_free = λ t. next_of t.0;
  next_free-fresh = λ t. next_of-fresh (next_of t.0) t.0 (omega arith);
  reset = λ t. live_from t.0 0;
  reset-live_from = λ t. refl;
  end = λ t. end_of t.0;
  end-end_of = λ t. refl;
  current = λ t p. bucket_at t.0 (live_from t.0 p);
  current-bucket_at = λ t p. refl;
  forward = λ t p. forward_from t.0 p;
  forward-forward_from = λ t p. refl;
  backward = λ t p. backward_from t.0 p;
  backward-backward_from = λ t p. refl;
}
