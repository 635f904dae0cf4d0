-- ===== src/Objects/Invariant.antt =====
-- What holds between the steps of src/object.c: counts, registry and tables agree with the
-- connections that there are.
use ext_pmmpthread.Prelude.{
  ℕ, suc, ◌≡◌, ◌≢◌, sym, subst, true, false, ◌&&◌, Option, none, some, ◌∷◌, ◌==◌, if◌then◌else◌,
  is_some, Bool-cases, inl, inr, arith,
}
use ext_pmmpthread.Store.Types.{Ident}
use ext_pmmpthread.Objects.{ZendObject, TsObject, World, at, without}
use ext_pmmpthread.Objects.Heap.{users, Distinct, users-without, at-without, without-Distinct}

-- The reference count of an object, 0 where there is none.
abbrev pub count_of : Option TsObject → ℕ
count_of none = 0
count_of (some o) = o.refcount

pub record Inv (w : World) : Type 0 where
  pub idle : (t : Ident) → w.connecting_object t ≡ none
  pub distinct : Distinct w.live
  pub registry : (a : ℕ) → w.objects a ≡ is_some (at a w.live)
  pub no_null : at 0 w.live ≡ none
  pub counted : (ts : ℕ) → count_of (w.ts_objs ts) ≡ users ts w.live
  pub held : (ts : ℕ) (o : TsObject) → w.ts_objs ts ≡ some o → o.refcount ≢ 0
  pub resolved :
      (t : Ident) (ts c : ℕ)
      → w.resolve t ts ≡ some c
      → (z : ZendObject) × ((at c w.live ≡ some z) × ((z.owner ≡ t) × (z.ts_obj ≡ ts)))
  pub primary :
      (c : ℕ) (z : ZendObject) → at c w.live ≡ some z → w.resolve z.owner z.ts_obj ≡ some c

-- A world with one more connection.
pub record Grown (z : ZendObject) (w w' : World) : Type 0 where
  pub live : w'.live ≡ z ∷ w.live
  pub idle : (t : Ident) → w'.connecting_object t ≡ none
  pub objects : (a : ℕ) → w'.objects a ≡ (if a == z.addr then true else w.objects a)
  pub counts :
      (ts : ℕ)
      → count_of (w'.ts_objs ts)
        ≡ (if z.ts_obj == ts then suc (count_of (w.ts_objs ts)) else count_of (w.ts_objs ts))
  pub held : (ts : ℕ) (o : TsObject) → w'.ts_objs ts ≡ some o → o.refcount ≢ 0
  pub resolve :
      (t : Ident) (ts : ℕ)
      → w'.resolve t ts
        ≡ (if (t == z.owner) && (ts == z.ts_obj) then some z.addr else w.resolve t ts)

pub Grown-Inv :
    (z : ZendObject) (w w' : World)
    → at z.addr w.live ≡ none
    → z.addr ≢ 0
    → w.resolve z.owner z.ts_obj ≡ none
    → Grown z w w'
    → Inv w
    → Inv w'
Grown-Inv z w w' new nonnull first g inv = record {
  idle = g.idle;
  distinct = subst Distinct (sym g.live) (new, inv.distinct);
  registry = λ a. ground (arith, g.live, g.objects a, inv.registry a);
  no_null = ground (arith, g.live, inv.no_null);
  counted = λ ts. ground (arith, g.live, g.counts ts, inv.counted ts);
  held = g.held;
  resolved = λ t ts c e. elim (Bool-cases ((t == z.owner) && (ts == z.ts_obj))) [
    | inl this ↦ (z, ground (arith, g.live, g.resolve t ts))
    | inr other ↦
        let old : w.resolve t ts ≡ some c = ground (arith, g.resolve t ts) in
        let (y, (there, (owner, ts_obj))) = inv.resolved t ts c old in
        (y, ground (arith, g.live, there, owner, ts_obj))
  ];
  primary = λ c y e. ground (arith, g.live, g.resolve y.owner y.ts_obj, inv.primary c y);
}

-- A world without the connection at an address.
pub record Shrunk (z : ZendObject) (w w' : World) : Type 0 where
  pub live : w'.live ≡ without z.addr w.live
  pub idle : (t : Ident) → w'.connecting_object t ≡ none
  pub objects : (a : ℕ) → w'.objects a ≡ (if a == z.addr then false else w.objects a)
  pub counts :
      (ts : ℕ)
      → count_of (w.ts_objs ts)
        ≡ (if z.ts_obj == ts then suc (count_of (w'.ts_objs ts)) else count_of (w'.ts_objs ts))
  pub held : (ts : ℕ) (o : TsObject) → w'.ts_objs ts ≡ some o → o.refcount ≢ 0
  pub resolve :
      (t : Ident) (ts : ℕ)
      → w'.resolve t ts ≡ (if (t == z.owner) && (ts == z.ts_obj) then none else w.resolve t ts)

pub Shrunk-Inv :
    (z : ZendObject) (w w' : World) → at z.addr w.live ≡ some z → Shrunk z w w' → Inv w → Inv w'
Shrunk-Inv z w w' here g inv = record {
  idle = g.idle;
  distinct = subst Distinct (sym g.live) (without-Distinct z.addr w.live inv.distinct);
  registry = λ a. ground (arith, g.live, g.objects a, inv.registry a, there a);
  no_null = ground (arith, g.live, inv.no_null, there 0);
  counted = λ ts.
      ground (arith, g.live, g.counts ts, inv.counted ts, users-without z.addr w.live z ts here);
  held = g.held;
  resolved = λ t ts c e.
      let old : w.resolve t ts ≡ some c = ground (arith, g.resolve t ts) in
      let (y, (found, (owner, ts_obj))) = inv.resolved t ts c old in
      (y, ground (arith, g.live, found, owner, ts_obj, there c, g.resolve t ts, inv.primary));
  primary = λ c y e. ground (
    arith,
    g.live,
    g.resolve y.owner y.ts_obj,
    inv.primary c y,
    inv.primary z.addr z here,
    there c,
  );
}
  where
    there : (a : ℕ) → at a (without z.addr w.live) ≡ (if z.addr == a then none else at a w.live)
    there a = at-without z.addr a w.live inv.distinct
