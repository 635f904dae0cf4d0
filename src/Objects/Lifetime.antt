-- ===== src/Objects/Lifetime.antt =====
-- How long the objects of src/object.c live, and which connections a thread gets.
use ext_pmmpthread.Prelude.{
  ℕ, ◌≡◌, ◌≢◌, refl, sym, ◌∙◌, ap, subst, false, Option, none, some, is_some, Option-cases, ◌⊎◌,
  inl, inr, ◌↔◌, ==_ne, ==_self, if◌then◌else◌, arith,
}
use ext_pmmpthread.Store.Types.{Ident}
use ext_pmmpthread.Objects.{
  ZendObject, World, at, object_alloc, object_connect, object_valid, base_free, connect_valid,
}
use ext_pmmpthread.Objects.Heap.{users, at-addr, at-without, users-without}
use ext_pmmpthread.Objects.Steps.{Fresh, Step, create, connect, free, empty, Reach, start, later}
use ext_pmmpthread.Objects.Invariant.{count_of, Inv, Grown-Inv, Shrunk-Inv}
use ext_pmmpthread.Objects.Effects.{
  made, base_ctor-grown, made-Grown, left, base_free-left, left-Shrunk,
}
use ext_pmmpthread.Objects.Connect.{Connected, connect-Connected, ts_obj-there}

-- Two results of one call are the same.
some-same : {A : Type 0} {a b : A} {o : Option A} → o ≡ some a → o ≡ some b → a ≡ b
some-same {A} {a} e h = ap (λ o. elim o as (λ _. A) [ none ↦ a | some x ↦ x ]) (sym e ∙ h)

unheld : (w : World) (t : Ident) (ts : ℕ) → Inv w → w.ts_objs ts ≡ none → w.resolve t ts ≡ none
unheld w t ts inv gone = elim (Option-cases (w.resolve t ts)) [
  | inl e ↦ e
  | inr (c, e) ↦
      let (z, (there, (own, same))) = inv.resolved t ts c e in
      let (o, exists) = ts_obj-there w c z inv there in ground (arith, exists, same, gone)
]

invalid-unchanged :
    (t : Ident) (address base ts scope : ℕ) (w : World)
    → object_valid address w ≡ false
    → object_connect t address base ts scope w ≡ some (none, w)
unfolding object_connect
invalid-unchanged t address base ts scope w e =
    ap
      (λ b.
        if b then connect_valid (at address w.live) t address base ts scope w else some (none, w))
      e

-- An address is valid exactly when a connection lies there.
valid-there :
    (address : ℕ) (w : World) → Inv w → object_valid address w ≡ is_some (at address w.live)
unfolding object_valid
valid-there address w inv = ground (arith, inv.registry address, inv.no_null)

Step-Inv : {w u : World} → Step w u → Inv w → Inv u
Step-Inv {w} (create t base ts scope u fresh e) inv =
    let entry = unheld w t ts inv fresh.ts_unused in
    subst Inv (some-same (base_ctor-grown t base ts scope w (inv.idle t) entry) e) (
      Grown-Inv (made t base ts scope w) w _ fresh.base_unused fresh.base_null entry
        (made-Grown t base ts scope w inv fresh.ts_unused) inv)
Step-Inv {w} (connect t address base ts scope c u fresh e) inv =
    elim (Option-cases (at address w.live)) [
      | inl nothing ↦
          let invalid = valid-there address w inv ∙ ap is_some nothing in
          subst Inv
            (ap (λ r. r.1) (some-same (invalid-unchanged t address base ts scope w invalid) e)) inv
      | inr (original, here) ↦
          let (d, (v, (ran, conn))) =
            connect-Connected t address base ts scope w original inv fresh.base_unused
              fresh.base_null here in
          subst Inv (ap (λ r. r.1) (some-same ran e)) conn.inv
    ]
Step-Inv {w} (free t base z u here own e) inv =
    let (o, exists) = ts_obj-there w base z inv here in
    let addr = at-addr base w.live z here in
    let here' = subst (λ a. at a w.live ≡ some z) (sym addr) here in
    let entry = subst (λ v. w.resolve v z.ts_obj ≡ some z.addr) own (inv.primary z.addr z here') in
    let e' = subst (λ a. base_free t a w ≡ some u) (sym addr) e in
    subst Inv (some-same (base_free-left t z o w here' exists entry) e')
      (Shrunk-Inv z w _ here' (left-Shrunk t z o w here' own exists inv) inv)

empty-Inv : Inv empty
empty-Inv = record {
  idle = λ _. refl;
  distinct = tt;
  registry = λ _. refl;
  no_null = refl;
  counted = λ _. refl;
  held = λ ts o e. ground arith;
  resolved = λ t ts c e. ground arith;
  primary = λ c z e. ground arith;
}

Reach-Inv : {w : World} → Reach w → Inv w
Reach-Inv start = empty-Inv
Reach-Inv (later r s) = Step-Inv s (Reach-Inv r)

freed_when_unused : (w : World) (ts : ℕ) → Inv w → (w.ts_objs ts ≡ none) ↔ (users ts w.live ≡ 0)
freed_when_unused w ts inv = (
  λ gone. sym (inv.counted ts) ∙ ap count_of gone,
  λ unused. elim (Option-cases (w.ts_objs ts)) [
    | inl gone ↦ gone
    | inr (o, there) ↦ ground (arith, inv.counted ts, inv.held ts o there)
  ],
)

-- In every world that threads can bring about by making, connecting and freeing objects in any order,
-- the reference count of an object is the number of connections to it, and an object is freed exactly
-- when no connection to it is left.
pub refcount-Reach :
    (w : World) (ts : ℕ)
    → Reach w
    → (count_of (w.ts_objs ts) ≡ users ts w.live) × ((w.ts_objs ts ≡ none) ↔ (users ts w.live ≡ 0))
refcount-Reach w ts r = let inv = Reach-Inv r in (inv.counted ts, freed_when_unused w ts inv)

-- In every such world a thread has one connection to an object at most: two connections of one
-- thread to the same object lie at the same address.
pub one_connection :
    (w : World) (a b : ℕ) (y z : ZendObject)
    → Reach w
    → at a w.live ≡ some y
    → at b w.live ≡ some z
    → y.owner ≡ z.owner
    → y.ts_obj ≡ z.ts_obj
    → a ≡ b
one_connection w a b y z r at_a at_b owner ts_obj =
    let inv = Reach-Inv r in ground (arith, inv.primary a y at_a, inv.primary b z at_b)

connect_answer :
    (t : Ident) (address base ts scope : ℕ) (w : World)
    → Reach w
    → Fresh base ts w
    → ((at address w.live ≡ none) × (object_connect t address base ts scope w ≡ some (none, w)))
      ⊎ ((original : ZendObject) × ((c : ℕ) × ((w' : World) × ((at address w.live ≡ some original)
                × ((object_connect t address base ts scope w ≡ some (some c, w'))
                    × Connected t original c w')))))
connect_answer t address base ts scope w r fresh =
    let inv = Reach-Inv r in
    elim (Option-cases (at address w.live)) [
      | inl nothing ↦ inl (
        nothing,
        invalid-unchanged t address base ts scope w
            (valid-there address w inv ∙ ap is_some nothing),
      )
      | inr (original, here) ↦
          let (c, (w', (ran, conn))) =
            connect-Connected t address base ts scope w original inv fresh.base_unused
              fresh.base_null here in
          inr (original, (c, (w', (here, (ran, conn)))))
    ]

-- Once an address has been registered, and while nothing has been set there, connecting to it fails.
connect-registered :
    (u : Ident) (base other ts scope : ℕ) (w : World)
    → at base w.live ≡ none
    → base ≢ 0
    → object_connect u base other ts scope (object_alloc base w) ≡ none
unfolding object_connect object_valid object_alloc connect_valid
connect-registered u base other ts scope w unused nonzero =
    rw (==_ne nonzero, ==_self base, unused, object_connect) refl

-- In every world that threads bring about by making, connecting and freeing objects, where making one
-- is a single step, so that no construction is under way, a thread that connects to any address gets
-- an answer without an access to freed memory: it is refused and changes nothing when no connection
-- lies there; otherwise it gets a connection of its own to the same object. While a construction is
-- under way this is not so: once the new address has been registered, and until its fields are
-- set, any thread that connects to it reads an object that is not there yet.
pub object_connect_lem :
    (t u : Ident) (address base ts scope other : ℕ) (w : World)
    → Reach w
    → Fresh base ts w
    → (((at address w.live ≡ none) × (object_connect t address base ts scope w ≡ some (none, w)))
        ⊎ ((original : ZendObject) × ((c : ℕ) × ((w' : World) × ((at address w.live ≡ some original)
                  × ((object_connect t address base ts scope w ≡ some (some c, w'))
                      × Connected t original c w'))))))
      × (object_connect u base other ts scope (object_alloc base w) ≡ none)
object_connect_lem t u address base ts scope other w r fresh = (
  connect_answer t address base ts scope w r fresh,
  connect-registered u base other ts scope w fresh.base_unused fresh.base_null,
)

-- In every such world a thread can free a connection of its own: the call accesses no freed memory,
-- takes the connection away, and frees the object exactly when it was the only connection to it.
pub base_free_lem :
    (t : Ident) (w : World) (z : ZendObject)
    → Reach w
    → at z.addr w.live ≡ some z
    → z.owner ≡ t
    → (w' : World) × ((base_free t z.addr w ≡ some w')
        × ((at z.addr w'.live ≡ none)
            × ((w'.ts_objs z.ts_obj ≡ none) ↔ (users z.ts_obj w.live ≡ 1))))
base_free_lem t w z r here own =
    let inv = Reach-Inv r in
    let (o, exists) = ts_obj-there w z.addr z inv here in
    let entry = subst (λ v. w.resolve v z.ts_obj ≡ some z.addr) own (inv.primary z.addr z here) in
    let fewer = left-Shrunk t z o w here own exists inv in
    let (freed, unused) =
      freed_when_unused (left t z o w) z.ts_obj (Shrunk-Inv z w _ here fewer inv) in
    let one_less = users-without z.addr w.live z z.ts_obj here in
    (
      left t z o w,
      (
        base_free-left t z o w here exists entry,
        (
          ground (arith, fewer.live, at-without z.addr z.addr w.live inv.distinct),
          (
            λ e. ground (arith, freed e, fewer.live, one_less),
            λ e. unused (ground (arith, e, fewer.live, one_less)),
          ),
        ),
      ),
    )
