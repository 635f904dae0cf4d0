-- ===== src/Objects/Connect.antt =====
-- What `pmmpthread_object_connect` of src/object.c does in a world where the invariant holds.
use ext_pmmpthread.Prelude.{
  ℕ, suc, ◌≡◌, ◌≢◌, refl, ◌∙◌, ap, Bool, true, Option, none, some, ◌∷◌, ◌==◌, ==_iff, ==_self,
  if◌then◌else◌, Bool-cases, Option-cases, inl, inr, arith,
}
use ext_pmmpthread.Memory.{update}
use ext_pmmpthread.Store.Types.{Ident}
use ext_pmmpthread.Objects.{
  ZendObject, TsObject, World, at, scope_worker, object_alloc, belongs_to, connect_nolock,
  connect_there, counted_once_more, connection, enter, enter_there, enter_if, base_ctor,
  new_connection, connected, set_connecting, addref, returning, reuse_or_connect, connect_valid,
  object_connect, object_valid, add_resolve,
}
use ext_pmmpthread.Objects.Heap.{at-users}
use ext_pmmpthread.Objects.Invariant.{Inv, Grown, Grown-Inv}
use ext_pmmpthread.Objects.Effects.{update_self, grown}

module _ (t : Ident) (address base ts scope : ℕ) (w : World) (original : ZendObject)
    (o : TsObject) where
  abbrev more : TsObject
  more = record o { refcount = suc o.refcount }

  abbrev joined : ZendObject
  joined = connection t base (scope == scope_worker) original.ts_obj more

  -- The world with the new connection.
  abbrev joined_world : World
  joined_world = set_connecting t none (
      grown joined (update w.ts_objs original.ts_obj (some more))
        (set_connecting t (some address) w))

  new_connection-joined :
      at address w.live ≡ some original
      → w.ts_objs original.ts_obj ≡ some o
      → w.resolve t original.ts_obj ≡ none
      → new_connection t address base ts scope w ≡ some joined_world
  unfolding new_connection base_ctor belongs_to connect_nolock enter object_alloc
  new_connection-joined here there entry =
      let k = scope == scope_worker in
      let v = object_alloc base (set_connecting t (some address) w) in
      let u = record v { ts_objs = update w.ts_objs original.ts_obj (some more) } in
      ap (λ q. connected t (enter_if t base k (belongs_to t ts scope q v)))
        (update_self w.connecting_object t (some address))
      ∙ ap (λ q. connected t (enter_if t base k (connect_there q v))) here
      ∙ ap (λ q. connected t (enter_if t base k (counted_once_more q original v))) there
      ∙ ap (λ q. connected t (enter_there t base k original.ts_obj q u))
          (update_self w.ts_objs original.ts_obj (some more))
      ∙ ap
          (λ q.
            connected t
              (some (add_resolve q t original.ts_obj base (record u { live = joined ∷ w.live }))))
          entry

  joined-Grown : Inv w → w.ts_objs original.ts_obj ≡ some o → Grown joined w joined_world
  joined-Grown inv there = record {
    live = refl;
    idle = λ u. ground (arith, inv.idle u);
    objects = λ a. refl;
    counts = λ u. ground (arith, there);
    held = λ u p e. ground (arith, inv.held u p);
    resolve = λ u v. ground arith;
  }

-- A connection that has been made or found: it is the thread's own, it belongs to the same object as
-- the original, and the invariant holds.
pub record Connected (t : Ident) (original : ZendObject) (c : ℕ) (w : World) : Type 0 where
  pub conn : ZendObject
  pub there : at c w.live ≡ some conn
  pub own : conn.owner ≡ t
  pub same : conn.ts_obj ≡ original.ts_obj
  pub inv : Inv w

-- An object that has a connection is there.
pub ts_obj-there :
    (w : World) (a : ℕ) (z : ZendObject)
    → Inv w
    → at a w.live ≡ some z
    → (o : TsObject) × (w.ts_objs z.ts_obj ≡ some o)
ts_obj-there w a z inv here = elim (Option-cases (w.ts_objs z.ts_obj)) [
  | inl gone ↦ ground (arith, gone, inv.counted z.ts_obj, at-users a w.live z here)
  | inr found ↦ found
]

addref-Inv : (c : ℕ) (w : World) → Inv w → Inv (addref c w)
addref-Inv c w inv = record {
  idle = inv.idle;
  distinct = inv.distinct;
  registry = inv.registry;
  no_null = inv.no_null;
  counted = inv.counted;
  held = inv.held;
  resolved = inv.resolved;
  primary = inv.primary;
}

pub connect-Connected :
    (t : Ident) (address base ts scope : ℕ) (w : World) (original : ZendObject)
    → Inv w
    → at base w.live ≡ none
    → base ≢ 0
    → at address w.live ≡ some original
    → (c : ℕ) × ((w' : World) × ((object_connect t address base ts scope w ≡ some (some c, w'))
          × Connected t original c w'))
unfolding object_connect object_valid connect_valid reuse_or_connect
connect-Connected t address base ts scope w original inv fresh nonnull here =
    elim (Bool-cases (original.owner == t)) [
      | inl own ↦ (
        address,
        (
          addref address w,
          (
            asked ∙ ap (λ b. ways b) own,
            record {
              conn = original;
              there = here;
              own = (==_iff original.owner t).0 own;
              same = refl;
              inv = addref-Inv address w inv;
            },
          ),
        ),
      )
      | inr foreign ↦ elim (Option-cases (w.resolve t original.ts_obj)) [
        | inr (c, entry) ↦
            let (z, (there, (own, same))) = inv.resolved t original.ts_obj c entry in
            (
              c,
              (
                addref c w,
                (
                  asked ∙ ap (λ b. ways b) foreign ∙ ap (λ q. others q) entry,
                  record {
                    conn = z;
                    there = there;
                    own = own;
                    same = same;
                    inv = addref-Inv c w inv;
                  },
                ),
              ),
            )
        | inl entry ↦
            let (o, exists) = ts_obj-there w address original inv here in
            let z = joined t address base ts scope w original o in
            (
              base,
              (
                joined_world t address base ts scope w original o,
                (
                  asked
                      ∙ ap (λ b. ways b) foreign
                      ∙ ap (λ q. others q) entry
                      ∙ ap (returning base) (
                          new_connection-joined t address base ts scope w original o here exists
                            entry),
                  record {
                    conn = z;
                    there = ap (λ b. if b then some z else at base w.live) (==_self base);
                    own = refl;
                    same = refl;
                    inv =
                        Grown-Inv z w _ fresh nonnull entry
                          (joined-Grown t address base ts scope w original o inv exists) inv;
                  },
                ),
              ),
            )
      ]
    ]
  where
    others : Option ℕ → Option (Option ℕ × World)
    others q = reuse_or_connect q t address base ts scope w

    ways : Bool → Option (Option ℕ × World)
    ways b =
        if b then some (some address, addref address w) else others (w.resolve t original.ts_obj)

    valid : object_valid address w ≡ true
    valid = ground (arith, inv.registry address, here, inv.no_null)

    asked : object_connect t address base ts scope w ≡ ways (original.owner == t)
    asked =
        ap
          (λ b.
            if b
            then connect_valid (at address w.live) t address base ts scope w
            else some (none, w))
          valid
        ∙ ap (λ q. connect_valid q t address base ts scope w) here
