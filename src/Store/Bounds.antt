-- ===== src/Store/Bounds.antt =====
-- The cached positions of a store's first and last elements.
use ext_pmmpthread.Prelude.{ℕ, ◌<◌, ◌≡◌, ap, sym, subst, ◌∙◌, ◌⊎◌, none, some, ◌∷◌, ◌++◌, length}
use ext_pmmpthread.Zend.{invalid_idx}
use ext_pmmpthread.Zend.Keys.{Key}
use ext_pmmpthread.Zend.Buckets.{Slots, lookup, entries, erase, holes, Unique, live_from, end_of}
use ext_pmmpthread.Zend.Ends.{entries-append, erase-append, lookup-append_self, Unique-before}
use ext_pmmpthread.Zend.Holes.{entries-trailing}
use ext_pmmpthread.Store.Types.{Storage}
use ext_pmmpthread.Store.State.{Engine, Store}
use ext_pmmpthread.Store.Take.{hash_del}

-- A cached position is not set, or is that of the first element, or of the last one.
pub record Bounds (s : Slots Storage) (first last : ℕ) : Type 0 where
  pub first-ok : (first ≡ invalid_idx) ⊎ (first ≡ live_from s 0)
  pub last-ok : (last ≡ invalid_idx) ⊎ (last ≡ end_of s)

-- The table of a store, whose positions fit an index.
abbrev pub slots_of : (E : Engine) → Store E → Slots Storage
slots_of E s = E.Z.slots s.hash

pub record IsBounded (E : Engine) (s : Store E) : Type 0 where
  pub bounds : Bounds (slots_of E s) s.first s.last
  pub room : length (slots_of E s) < invalid_idx

-- The slots after the deletion of a bucket: a hole is left, and holes at the end may go.
pub record Deletes (E : Engine) (pre : Slots Storage) (post : Slots Storage) (t : E.Z.Table)
    : Type 0 where
  pub spare : ℕ
  pub slots : E.Z.slots t ++ holes spare ≡ pre ++ none ∷ post

module _ (E : Engine) where
  pub hash_del-Deletes :
      (t : E.Z.Table) (pre : Slots Storage) (k : Key) (z : Storage) (post : Slots Storage)
      → E.Z.slots t ≡ pre ++ some (k, z) ∷ post
      → Deletes E pre post (hash_del E t k)
  hash_del-Deletes t pre k z post h =
      let out = Unique-before pre k z post (subst Unique h (E.Z.unique t)) in
      let there : lookup k (E.Z.slots t) ≡ some z =
        ap (lookup k) h ∙ lookup-append_self pre k z post out in
      let (t', e, (n, s)) = E.Z.del_present t k z there in
      subst (Deletes E pre post) (sym (ap (λ o. elim o [ none ↦ t | some u ↦ u ]) e))
        (record { spare = n; slots = s ∙ ap (erase k) h ∙ erase-append pre k z post out })

  pub hash_del-entries :
      (t : E.Z.Table) (pre post : Slots Storage)
      → Deletes E pre post t
      → entries (E.Z.slots t) ≡ entries pre ++ entries post
  hash_del-entries t pre post d =
      sym (entries-trailing (E.Z.slots t) d.spare)
      ∙ ap entries d.slots
      ∙ entries-append pre (none ∷ post)
