-- ===== src/Store/Whole.antt =====
-- src/store.c: the operations on all of a store's members. `got` is what `pmmpthread_monitor_lock`
-- returned. A loop that makes several strings makes each at the next address.
use Prim.Native.String.{String}
use ext_pmmpthread.Prelude.{
  ℕ, suc, ◌-◌, ◌+◌, ◌%◌, Bool, true, false, not, ◌&&◌, ◌||◌, Option, none, some, List, [], ◌∷◌,
  ◌++◌, ◌==◌, if◌then◌else◌, is_some,
}
use ext_pmmpthread.Zend.Keys.{Key}
use ext_pmmpthread.Zend.Buckets.{entries}
use ext_pmmpthread.Store.Types.{Zval, Storage, string_data}
use ext_pmmpthread.Store.Values.{
  Thread, again, save_string, restore_zval, storage_is_cacheable, hard_copy_storage,
}
use ext_pmmpthread.Store.State.{
  Local, indirect, cached, Engine, Offset, mod_width, Store, State, invalidate_bounds,
  bump_modcount, bump_if, member_is_cacheable, forget, init_local_properties, sync_local_properties,
  update_shared_property,
}
use ext_pmmpthread.Store.Access.{is_object, write}

-- A string that this thread owns becomes a copy that does not depend on it.
unfoldable pub persisted : Thread → Storage → Option Storage
unfolding save_string
persisted th (Storage.ptr (string_data s owner)) =
    if owner == th.ls then some (Storage.string (save_string th.fresh s)) else none
persisted th z = none

module _ (E : Engine) where
  unfoldable pub persist_loop : Thread → List (Key × Storage) → E.Z.Table → E.Z.Table
  unfolding persisted
  persist_loop th [] t = t
  persist_loop th ((k, z) ∷ es) t =
      persist_loop (again th) es (elim (persisted th z) [ none ↦ t | some z' ↦ E.Z.update t k z' ])

  unfoldable pub persist_local_properties : Thread → (got : Bool) → Store E → Store E
  unfolding persist_loop
  persist_local_properties th got s =
      if got then record s { hash = persist_loop th (entries (E.Z.slots s.hash)) s.hash } else s

  -- What the local table holds for a key, unless it is not to be handed out.
  abbrev pub valid_item : E.L.Table → Key → Option Local
  valid_item t k = elim (E.L.find t k) [
    | none ↦ none
    | some indirect ↦ none
    | some (cached z) ↦ some (cached z)
  ]

  -- The local table, the table that is filled, and `changed`.
  pub record Filling : Type 0 where
    pub local : E.L.Table
    pub hash : E.L.Table
    pub changed : Bool

  -- `own` is `hash == threaded->std.properties`.
  abbrev pub target : Bool → Filling → E.L.Table
  target true f = f.local
  target false f = f.hash

  abbrev pub fill : Bool → Key → Local → Bool → Filling → Filling
  fill true k l changed f = record {
    local = E.L.update f.local k l;
    hash = f.hash;
    changed = changed;
  }
  fill false k l changed f = record {
    local = f.local;
    hash = E.L.update f.hash k l;
    changed = changed;
  }

  unfoldable pub tohash_loop : Thread → (own : Bool) → List (Key × Storage) → Filling → Filling
  unfolding restore_zval
  tohash_loop th own [] f = f
  tohash_loop th own ((k, z) ∷ es) f = tohash_loop (again th) own es (elim (valid_item f.local k) [
    | some l ↦ if own then f else fill false k l f.changed f
    | none ↦ fill own k (cached (restore_zval th z)) true f
  ])

  -- The names of the uninitialised typed properties.
  unfoldable pub default_properties_loop : (own : Bool) → List String → Filling → Filling
  default_properties_loop own [] f = f
  default_properties_loop own (n ∷ ns) f = default_properties_loop own ns (
      if is_some (E.L.find (target own f) (Key.name n))
      then f
      else fill own (Key.name n) indirect true f)

  -- The state afterwards, and the table that was filled where it is not the object's own.
  unfoldable pub tohash :
      Thread → (got : Bool) → State E → (own : Bool) → E.L.Table → List String → State E × E.L.Table
  unfolding init_local_properties sync_local_properties tohash_loop default_properties_loop
  tohash th got st own hash names =
      let st1 : State E = record st {
        threaded = record st.threaded { properties = some (init_local_properties E st.threaded) };
      } in
      if not got
      then (st1, hash)
      else let st2 = sync_local_properties E th st1 in
        let start : Filling = record {
          local = init_local_properties E st2.threaded;
          hash = hash;
          changed = false;
        } in
        let f =
          default_properties_loop own names
            (tohash_loop th own (entries (E.Z.slots st2.props.hash)) start) in
        (
          record st2 {
            threaded = record st2.threaded {
              properties = some f.local;
              local_props_modcount =
                  if f.changed && own
                  then (st2.props.modcount + mod_width - 1) % mod_width
                  else st2.threaded.local_props_modcount;
            };
          },
          f.hash,
        )

  -- A full synchronisation: the state, and the values on which the function calls itself, in order.
  -- The tasks of a worker follow, by `Worker.sync_collectable_tasks`.
  pub record Synced : Type 0 where
    pub local : E.L.Table
    pub calls : List Zval

  unfoldable pub full_sync_loop : Thread → List (Key × Storage) → Synced → Synced
  unfolding restore_zval storage_is_cacheable
  full_sync_loop th [] s = s
  full_sync_loop th ((k, z) ∷ es) s = full_sync_loop (again th) es (elim (valid_item s.local k) [
    | some indirect ↦ s
    | some (cached l) ↦ if is_object (some z) then record s { calls = s.calls ++ l ∷ [] } else s
    | none ↦
        if storage_is_cacheable z
        then record {
          local = E.L.update s.local k (cached (restore_zval th z));
          calls = if is_object (some z) then s.calls ++ restore_zval th z ∷ [] else s.calls;
        }
        else s
  ])

  -- `recursive` is GC_IS_RECURSIVE: the object is being synchronised already.
  unfoldable pub full_sync_local_properties :
      Thread → (recursive got : Bool) → State E → State E × List Zval
  unfolding sync_local_properties init_local_properties full_sync_loop
  full_sync_local_properties th true got st = (st, [])
  full_sync_local_properties th false false st = (st, [])
  full_sync_local_properties th false true st =
      let st1 = sync_local_properties E th st in
      let s =
        full_sync_loop th (entries (E.Z.slots st1.props.hash))
          (record { local = init_local_properties E st1.threaded; calls = [] }) in
      (record st1 { threaded = record st1.threaded { properties = some s.local } }, s.calls)

  -- Merging the store of a ThreadSafeArray: the state, and `overwrote_pmmpthread_object`.
  unfoldable pub merge_loop :
      ℕ → (overwrite : Bool) → List (Key × Storage) → State E → Bool → State E × Bool
  unfolding member_is_cacheable update_shared_property hard_copy_storage
  merge_loop fresh overwrite [] st overwrote = (st, overwrote)
  merge_loop fresh overwrite ((k, z) ∷ es) st overwrote =
      elim (not overwrite && is_some (E.Z.find st.props.hash k)) [
        | true ↦ merge_loop fresh overwrite es st overwrote
        | false ↦
            merge_loop (suc fresh) overwrite es
              (record {
                props = update_shared_property E k (hard_copy_storage fresh z) st.props;
                threaded = forget E k st.threaded;
              })
              (overwrote || member_is_cacheable E st.props k)
      ]

  -- `got` and `got_from` are the locks of the destination and of the source. Whether SUCCESS is
  -- returned.
  unfoldable pub merge_store :
      ℕ → (got got_from : Bool) → State E → Store E → (overwrite : Bool) → State E × Bool
  unfolding merge_loop bump_modcount invalidate_bounds
  merge_store fresh false got_from st from overwrite = (st, false)
  merge_store fresh true false st from overwrite = (st, true)
  merge_store fresh true true st from overwrite =
      let r = merge_loop fresh overwrite (entries (E.Z.slots from.hash)) st false in
      let st' = bump_if E r.1 r.0 in (record st' { props = invalidate_bounds E st'.props }, true)

  abbrev pub offset_of : Key → Offset
  offset_of (Key.index n) = Offset.long n
  offset_of (Key.name s) = Offset.string s

  -- Merging the values of an array or of another object, in order, up to the first that cannot be
  -- stored; arrays among them have been coerced. Whether no exception was thrown.
  unfoldable pub merge_values :
      Thread → (overwrite : Bool) → List (Key × Zval) → State E → State E × Bool
  unfolding write
  merge_values th overwrite [] st = (st, true)
  merge_values th overwrite ((k, v) ∷ es) st =
      let w = write E th true st (some (offset_of k)) v in
      elim (not overwrite && is_some (E.Z.find st.props.hash k)) [
        | true ↦ merge_values th overwrite es st
        | false ↦ elim w.success [
          | true ↦ merge_values (again th) overwrite es w.state
          | false ↦ (w.state, false)
        ]
      ]
