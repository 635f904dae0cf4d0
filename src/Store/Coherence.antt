-- ===== src/Store/Coherence.antt =====
-- The tables of local properties of src/store.c against the shared table.
use ext_pmmpthread.Prelude.{
  ℕ, suc, ◌%◌, ◌<◌, ◌≤◌, ◌≡◌, refl, ap, sym, subst, ◌∙◌, Bool, true, false, Bool-cases, inl, inr,
  ◌⊎◌, ◌≢◌, Option, none, some, Option-cases, [], ◌++◌, ◌==◌, ==_iff, if◌then◌else◌, arith,
}
use mathlib.Core.Bool.{false≢true}
use ext_pmmpthread.Zend.{ZendHash, invalid_idx}
use ext_pmmpthread.Zend.Keys.{Key, key_eq, key_eq_iff}
use ext_pmmpthread.Zend.Buckets.{Slots, lookup, erase, holes}
use ext_pmmpthread.Zend.Erased.{lookup-trailing, lookup-erase}
use ext_pmmpthread.Store.Types.{
  Storage, closure_data, object_data, socket_data, enum_data, string_data,
}
use ext_pmmpthread.Store.Values.{Thread, storage_is_cacheable}
use ext_pmmpthread.Store.State.{
  Local, Engine, Store, Connection, State, mod_width, still_cached, bump_modcount,
  member_is_cacheable, invalidate_bounds, local_del, forget,
}
use ext_pmmpthread.Store.Access.{delete_member}
use ext_pmmpthread.Store.Bounds.{slots_of}

-- What a connection caches.
abbrev pub local_slots : (E : Engine) → Connection E → Slots Local
local_slots E c = elim c.properties [ none ↦ [] | some t ↦ E.L.slots t ]

-- What it means that a cached value stands for what the shared table holds, such as
-- `still_cached`: that can be so for any reason, but of the elements that are there only those that
-- may be cached are stood for.
abbrev pub Standing : Type 1
Standing = Option Storage → Local → Type 0

abbrev pub OnlyCacheable : Standing → Type 0
OnlyCacheable R = (z : Storage) (l : Local) → R (some z) l → storage_is_cacheable z ≡ true

-- A connection whose count is that of the store caches only what stands for what the store holds.
abbrev pub Coherent : (E : Engine) → Standing → Store E → Connection E → Type 0
Coherent E R s c =
    c.local_props_modcount ≡ s.modcount
    → (k : Key) (l : Local) → lookup k (local_slots E c) ≡ some l
    → R (lookup k (slots_of E s)) l

abbrev pub StillCached : Thread → Standing
StillCached th o l = still_cached th o l ≡ true

-- What stands for an element that may not be cached is never taken as cached.
pub cached-cacheable :
    (th : Thread) (z : Storage) (l : Local)
    → still_cached th (some z) l ≡ true
    → storage_is_cacheable z ≡ true
unfolding still_cached storage_is_cacheable
cached-cacheable th Storage.null l h = ground arith
cached-cacheable th (Storage.bool b) l h = ground arith
cached-cacheable th (Storage.long n) l h = ground arith
cached-cacheable th (Storage.double d) l h = ground arith
cached-cacheable th (Storage.string s) l h = refl
cached-cacheable th (Storage.ptr (closure_data c this owner)) l h = refl
cached-cacheable th (Storage.ptr (object_data o)) l h = refl
cached-cacheable th (Storage.ptr (socket_data s)) l h = refl
cached-cacheable th (Storage.ptr (enum_data c m)) l h = ground arith
cached-cacheable th (Storage.ptr (string_data s owner)) l h = refl

pub found_after :
    {V : Type 0} (H : ZendHash V) (t t' : H.Table) (k j : Key) (n : ℕ)
    → H.slots t' ++ holes n ≡ erase k (H.slots t)
    → lookup j (H.slots t') ≡ (if key_eq k j then none else lookup j (H.slots t))
found_after H t t' k j n e =
    sym (lookup-trailing j (H.slots t') n)
    ∙ ap (lookup j) e
    ∙ lookup-erase j k (H.slots t) (H.unique t)

pub found_forgotten :
    (E : Engine) (t : E.L.Table) (k j : Key)
    → lookup j (E.L.slots (local_del E t k)) ≡ (if key_eq k j then none else lookup j (E.L.slots t))
found_forgotten E t k j = elim (Option-cases (lookup k (E.L.slots t))) [
  | inl gone ↦
      (let e : local_del E t k ≡ t =
          ap (λ o. elim o [ none ↦ t | some u ↦ u ]) (E.L.del_absent t k gone) in
        ap (λ u. lookup j (E.L.slots u)) e ∙ ground (arith, gone, key_eq_iff k j))
  | inr (w, there) ↦
      (let (u, d, (n, s)) = E.L.del_present t k w there in
        let e : local_del E t k ≡ u = ap (λ o. elim o [ none ↦ t | some x ↦ x ]) d in
        ap (λ x. lookup j (E.L.slots x)) e ∙ found_after E.L t u k j n s)
]

-- A connection is coherent, and its count is not ahead of the store's, or is the -1 that a new
-- connection to a store without modifications starts with, as 64 bits.
pub record InSync (E : Engine) (R : Standing) (s : Store E) (c : Connection E) : Type 0 where
  pub coherent : Coherent E R s c
  pub behind : (c.local_props_modcount ≤ s.modcount) ⊎ (suc c.local_props_modcount ≡ mod_width)

module _ (E : Engine) where
  -- The store once the key is gone and, where it matters, the modification is counted.
  abbrev pub counted : Bool → E.Z.Table → Store E → Store E
  counted b t s = record {
    hash = t;
    first = invalid_idx;
    last = invalid_idx;
    modcount = if b then suc s.modcount % mod_width else s.modcount;
  }

  -- Such a count is not what the store counts to next, nor ahead of it then.
  ahead :
      (n m : ℕ) → (n ≤ m) ⊎ (suc n ≡ mod_width) → suc (suc m) < mod_width → n ≢ suc m % mod_width
  ahead n m (inl h) room e = omega arith
  ahead n m (inr h) room e = omega arith

  still_behind :
      (n m : ℕ)
      → (n ≤ m) ⊎ (suc n ≡ mod_width)
      → suc (suc m) < mod_width
      → (n ≤ suc m % mod_width) ⊎ (suc n ≡ mod_width)
  still_behind n m (inl h) room = inl (omega arith)
  still_behind n m (inr h) room = inr h

  pub other_lem :
      (b : Bool) (R : Standing) (s : Store E) (t : E.Z.Table) (k : Key) (z : Storage)
      (c : Connection E)
      → OnlyCacheable R
      → storage_is_cacheable z ≡ b
      → lookup k (slots_of E s) ≡ some z
      → ((j : Key)
          → lookup j (E.Z.slots t) ≡ (if key_eq k j then none else lookup j (slots_of E s)))
      → suc (suc s.modcount) < mod_width
      → InSync E R s c
      → InSync E R (counted b t s) c
  other_lem true R s t k z c only cacheable there gone room ok = record {
    coherent = λ e j l h. absurd (ahead c.local_props_modcount s.modcount ok.behind room e);
    behind = still_behind c.local_props_modcount s.modcount ok.behind room;
  }
  other_lem false R s t k z c only cacheable there gone room ok = record {
    coherent = λ e j l h.
        let before = ok.coherent e j l h in
        elim (Bool-cases (key_eq k j)) [
          | inl same ↦
              (let here : R (some z) l =
                  subst (λ o. R o l)
                    (ap (λ i. lookup i (slots_of E s)) (sym ((key_eq_iff k j).0 same)) ∙ there)
                    before in
                absurd (false≢true (sym cacheable ∙ only z l here)))
          | inr apart ↦
              (let e' : lookup j (E.Z.slots t) ≡ lookup j (slots_of E s) = rw (gone, apart) refl in
                subst (λ o. R o l) (sym e') before)
        ];
    behind = ok.behind;
  }

  -- The connection that made the modification: it keeps up where it was in step.
  abbrev pub own : (counts in_step : Bool) → Connection E → Connection E
  own true true c = record c { local_props_modcount = suc c.local_props_modcount % mod_width }
  own true false c = c
  own false in_step c = c

  kept :
      (o : Option E.L.Table) (k j : Key) (l : Local)
      → lookup j
          (elim (elim o as (λ _. Option E.L.Table) [
            | none ↦ none
            | some t ↦ some (local_del E t k)
          ])
            as (λ _. Slots Local) [ none ↦ [] | some t ↦ E.L.slots t ])
        ≡ some l
      → (lookup j (elim o as (λ _. Slots Local) [ none ↦ [] | some t ↦ E.L.slots t ]) ≡ some l)
        × (key_eq k j ≡ false)
  kept none k j l h = ground arith
  kept (some t) k j l h = ground (arith, found_forgotten E t k j, h)

  own_coherent :
      (R : Standing) (s : Store E) (t : E.Z.Table) (b : Bool) (k : Key) (c : Connection E)
      → ((j : Key)
          → lookup j (E.Z.slots t) ≡ (if key_eq k j then none else lookup j (slots_of E s)))
      → InSync E R s c
      → c.local_props_modcount ≡ s.modcount
      → (j : Key) (l : Local) → lookup j (local_slots E (forget E k c)) ≡ some l
      → R (lookup j (E.Z.slots t)) l
  own_coherent R s t b k c gone ok e j l h =
      let there = kept c.properties k j l h in
      let same : lookup j (E.Z.slots t) ≡ lookup j (slots_of E s) = rw (gone, there.1) refl in
      subst (λ o. R o l) (sym same) (ok.coherent e j l there.0)

  pub own_lem :
      (b in_step : Bool) (R : Standing) (s : Store E) (t : E.Z.Table) (k : Key) (c : Connection E)
      → (c.local_props_modcount == s.modcount) ≡ in_step
      → ((j : Key)
          → lookup j (E.Z.slots t) ≡ (if key_eq k j then none else lookup j (slots_of E s)))
      → suc (suc s.modcount) < mod_width
      → InSync E R s c
      → InSync E R (counted b t s) (forget E k (own b in_step c))
  own_lem true true R s t k c e gone room ok =
      let level : c.local_props_modcount ≡ s.modcount =
        (==_iff c.local_props_modcount s.modcount).0 e in
      record {
        coherent = λ f j l h. own_coherent R s t true k c gone ok level j l h;
        behind = inl (omega (arith, level));
      }
  own_lem true false R s t k c e gone room ok = record {
    coherent = λ f j l h. absurd (ahead c.local_props_modcount s.modcount ok.behind room f);
    behind = still_behind c.local_props_modcount s.modcount ok.behind room;
  }
  own_lem false in_step R s t k c e gone room ok = record {
    coherent = λ f j l h. own_coherent R s t false k c gone ok f j l h;
    behind = ok.behind;
  }

  pub deleted_state :
      (b in_step : Bool) (k : Key) (st : State E) (t : E.Z.Table)
      → E.Z.del st.props.hash k ≡ some t
      → member_is_cacheable E st.props k ≡ b
      → (st.threaded.local_props_modcount == st.props.modcount) ≡ in_step
      → (delete_member E k st).state
        ≡ record { props = counted b t st.props; threaded = forget E k (own b in_step st.threaded) }
  unfolding delete_member bump_modcount invalidate_bounds
  deleted_state true true k st t d c e = rw (d, c, e, delete_member, bump_modcount) refl
  deleted_state true false k st t d c e = rw (d, c, e, delete_member, bump_modcount) refl
  deleted_state false in_step k st t d c e = rw (d, c, delete_member) refl
