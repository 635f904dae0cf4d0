-- ===== src/Zend.antt =====
-- The part of PHP's engine that the extension stands on. The engine is not part of the repository:
-- its hash table is a record of the functions that the extension calls, with what the extension
-- relies on as laws. The laws speak of the table's buckets, `slots`: `arData` up to `nNumUsed`, where
-- a deleted bucket stays behind as a hole until the table is compacted.
pub mod Keys
pub mod Buckets
pub mod Ends
pub mod Holes
pub mod Taken
pub mod Erased
pub mod Array
use ext_pmmpthread.Prelude.{ℕ, ◌<◌, ◌≡◌, ◌⊎◌, ◌++◌, Option, none, some, [], ◌∷◌, length, ◌^◌, ◌-◌}
use Keys.{Key}
use Buckets.{
  Slots, lookup, entries, compact, put, erase, holes, Unique, live_from, end_of, forward_from,
  backward_from, bucket_at,
}

-- HT_INVALID_IDX, `(uint32_t) -1`
abbrev pub invalid_idx : ℕ
invalid_idx = 2 ^ 32 - 1

pub record ZendHash (V : Type 0) : Type 1 where
  pub Table : Type 0
  pub slots : Table → Slots V
  pub unique : (t : Table) → Unique (slots t)
  -- zend_hash_init
  pub init : Table
  pub slots-init : slots init ≡ []
  -- zend_hash_find, zend_hash_index_find
  pub find : Table → Key → Option V
  pub find-lookup : (t : Table) (k : Key) → find t k ≡ lookup k (slots t)
  -- zend_hash_num_elements
  pub num_elements : Table → ℕ
  pub num_elements-entries : (t : Table) → num_elements t ≡ length (entries (slots t))
  -- zend_hash_update and its kin: a key that is there keeps its bucket; a new one goes to the end,
  -- perhaps after the holes have been closed
  pub update : Table → Key → V → Table
  pub update_old :
      (t : Table) (k : Key) (v w : V)
      → lookup k (slots t) ≡ some w
      → slots (update t k v) ≡ put k v (slots t)
  pub update_new :
      (t : Table) (k : Key) (v : V)
      → lookup k (slots t) ≡ none
      → (slots (update t k v) ≡ slots t ++ some (k, v) ∷ [])
        ⊎ (slots (update t k v) ≡ compact (slots t) ++ some (k, v) ∷ [])
  -- zend_hash_del and its kin: `none` is FAILURE; holes at the end are dropped
  pub del : Table → Key → Option Table
  pub del_absent : (t : Table) (k : Key) → lookup k (slots t) ≡ none → del t k ≡ none
  pub del_present :
      (t : Table) (k : Key) (w : V)
      → lookup k (slots t) ≡ some w
      → (t' : Table) × (del t k ≡ some t') × ((n : ℕ) × (slots t' ++ holes n ≡ erase k (slots t)))
  -- zend_hash_next_free_element: a key that is not taken
  pub next_free : Table → ℕ
  pub next_free-fresh : (t : Table) → lookup (Key.index (next_free t)) (slots t) ≡ none
  -- zend_hash_internal_pointer_reset_ex and _end_ex
  pub reset : Table → ℕ
  pub reset-live_from : (t : Table) → reset t ≡ live_from (slots t) 0
  pub end : Table → ℕ
  pub end-end_of : (t : Table) → end t ≡ end_of (slots t)
  -- zend_hash_get_current_data_ex and _key_ex; `none` is NULL and HASH_KEY_NON_EXISTENT
  pub current : Table → ℕ → Option (Key × V)
  pub current-bucket_at :
      (t : Table) (p : ℕ) → current t p ≡ bucket_at (slots t) (live_from (slots t) p)
  -- zend_hash_move_forward_ex and _backwards_ex; `none` is FAILURE
  pub forward : Table → ℕ → Option ℕ
  pub forward-forward_from : (t : Table) (p : ℕ) → forward t p ≡ forward_from (slots t) p
  pub backward : Table → ℕ → Option ℕ
  pub backward-backward_from : (t : Table) (p : ℕ) → backward t p ≡ backward_from (slots t) p
