-- ===== src/Objects/Effects.antt =====
-- What the operations of src/object.c do to the world.
use ext_pmmpthread.Prelude.{
  ℕ, ◌≡◌, refl, ◌∙◌, ap, true, Option, none, some, ◌∷◌, ◌==◌, ==_self, if◌then◌else◌, arith,
}
use ext_pmmpthread.Memory.{update}
use ext_pmmpthread.Store.Types.{Ident}
use ext_pmmpthread.Objects.{
  ZendObject, TsObject, World, at, scope_worker, object_alloc, belongs_to, connection,
  ts_object_ctor, enter, enter_there, enter_if, base_ctor, drop_resolve, release, release_at,
  free_there, drop_if, base_free, unregister, object_delete, forget_shared, set_resolve,
  add_resolve,
}
use ext_pmmpthread.Objects.Invariant.{Inv, Grown, Shrunk}

-- Two descriptions of a changed function.
pub update_self : {A : Type 0} (f : ℕ → A) (p : ℕ) (a : A) → update f p a p ≡ a
update_self f p a = ap (λ b. if b then a else f p) (==_self p)

module _ (t : Ident) (z : ZendObject) (o : TsObject) (w : World) where
  -- The world without the connection.
  abbrev pub left : World
  left =
      let v = set_resolve w t z.ts_obj none in
      unregister t z.addr (record v { ts_objs = update v.ts_objs z.ts_obj (release o) })

  pub base_free-left :
      at z.addr w.live ≡ some z
      → w.ts_objs z.ts_obj ≡ some o
      → w.resolve t z.ts_obj ≡ some z.addr
      → base_free t z.addr w ≡ some left
  unfolding base_free drop_resolve
  base_free-left here there entry =
      ap (λ q. free_there t q w) here
      ∙ ap (λ q. release_at t z (w.ts_objs z.ts_obj) (drop_if q t z w)) entry
      ∙ ap
          (λ b.
            release_at t z (w.ts_objs z.ts_obj) (if b then set_resolve w t z.ts_obj none else w))
          (==_self z.addr)
      ∙ ap (λ q. release_at t z q (set_resolve w t z.ts_obj none)) there

  pub left-Shrunk :
      at z.addr w.live ≡ some z
      → z.owner ≡ t
      → w.ts_objs z.ts_obj ≡ some o
      → Inv w
      → Shrunk z w left
  unfolding unregister release object_delete forget_shared
  left-Shrunk here own there inv = record {
    live = refl;
    idle = inv.idle;
    objects = λ a. ground (arith, here, inv.no_null);
    counts = λ ts. ground (arith, there, inv.held z.ts_obj o);
    held = λ ts p e. ground (arith, there, inv.held z.ts_obj o, inv.held ts p);
    resolve = λ u ts. ground (arith, own);
  }

-- A world with one more connection, and other objects.
abbrev pub grown : ZendObject → (ℕ → Option TsObject) → World → World
grown z f w =
    set_resolve
      (record w {
        live = z ∷ w.live;
        objects = update w.objects z.addr true;
        refs = update w.refs z.addr 1;
        ts_objs = f;
      })
      z.owner z.ts_obj (some z.addr)

module _ (t : Ident) (base ts scope : ℕ) (w : World) where
  abbrev pub made : ZendObject
  made = connection t base (scope == scope_worker) ts (ts_object_ctor t scope)

  pub base_ctor-grown :
      w.connecting_object t ≡ none
      → w.resolve t ts ≡ none
      → base_ctor t base ts scope w
        ≡ some (grown made (update w.ts_objs ts (some (ts_object_ctor t scope))) w)
  unfolding base_ctor belongs_to enter object_alloc
  base_ctor-grown idle entry =
      let k = scope == scope_worker in
      let o = ts_object_ctor t scope in
      let v = record (object_alloc base w) { ts_objs = update w.ts_objs ts (some o) } in
      ap (λ q. enter_if t base k (belongs_to t ts scope q (object_alloc base w))) idle
      ∙ ap (λ q. enter_there t base k ts q v) (update_self w.ts_objs ts (some o))
      ∙ ap (λ q. some (add_resolve q t ts base (record v { live = made ∷ w.live }))) entry

  pub made-Grown :
      Inv w
      → w.ts_objs ts ≡ none
      → Grown made w (grown made (update w.ts_objs ts (some (ts_object_ctor t scope))) w)
  unfolding ts_object_ctor
  made-Grown inv new = record {
    live = refl;
    idle = inv.idle;
    objects = λ a. refl;
    counts = λ u. ground (arith, new);
    held = λ u p e. ground (arith, inv.held u p);
    resolve = λ u v. ground arith;
  }
