-- ===== src/Objects.antt =====
-- src/object.c: the life of thread-safe objects. An object proper, a `TsObject`, is shared; a thread
-- holds a `ZendObject` that is connected to it. The objects that connections may be made to are
-- registered (the table `objects` of src/globals.c). A step takes the global lock, which is recursive,
-- and is told the addresses that the allocator returns; `none` is an access to an address at which
-- there is nothing.
pub mod Heap
pub mod Steps
pub mod Invariant
pub mod Effects
pub mod Connect
pub mod Iterator
pub mod Foreach
pub mod Loop
pub mod Classes
pub mod Lifetime
mod Tests
use Prim.Native.Nat.{bit_and}
use ext_pmmpthread.Prelude.{
  ℕ, zero, suc, ◌+◌, ◌-◌, ◌%◌, ◌^◌, Bool, true, false, not, ◌&&◌, Option, none, some, List, [], ◌∷◌,
  ◌==◌, if◌then◌else◌, is_some,
}
use ext_pmmpthread.Memory.{update}
use ext_pmmpthread.Store.Types.{Ident}

-- PMMPTHREAD_SCOPE_THREAD and PMMPTHREAD_SCOPE_WORKER
abbrev pub scope_thread : ℕ
scope_thread = 4

abbrev pub scope_worker : ℕ
scope_worker = 8

-- pmmpthread_object_t; of the store, its modification count
pub record TsObject : Type 0 where
  pub refcount : ℕ
  pub scope : ℕ
  pub creator : Ident
  pub modcount : ℕ

-- pmmpthread_zend_object_t, with its address
pub record ZendObject : Type 0 where
  pub addr : ℕ
  pub ts_obj : ℕ
  pub owner : Ident
  pub local_props_modcount : ℕ
  pub worker_data : Bool

-- `objects` is the registry, and `shared_globals` the connection to the shared global variables, 0 for
-- NULL; `resolve`, `connecting_object` and `local_shared_globals` are what each thread has of its own;
-- `refs` are the engine's reference counts of the connections.
pub record World : Type 0 where
  pub live : List ZendObject
  pub ts_objs : ℕ → Option TsObject
  pub objects : ℕ → Bool
  pub resolve : Ident → ℕ → Option ℕ
  pub connecting_object : Ident → Option ℕ
  pub refs : ℕ → ℕ
  pub shared_globals : ℕ
  pub local_shared_globals : Ident → ℕ

-- The connection at an address.
abbrev pub at : ℕ → List ZendObject → Option ZendObject
at a [] = none
at a (z ∷ zs) = if z.addr == a then some z else at a zs

abbrev pub without : ℕ → List ZendObject → List ZendObject
without a [] = []
without a (z ∷ zs) = if z.addr == a then zs else z ∷ without a zs

abbrev pub set_resolve : World → Ident → ℕ → Option ℕ → World
set_resolve w t ts c = record w { resolve = update w.resolve t (update (w.resolve t) ts c) }

-- pmmpthread_globals_object_alloc; what the memory holds is set by `base_ctor`.
unfoldable pub object_alloc : ℕ → World → World
object_alloc a w = record w { objects = update w.objects a true; refs = update w.refs a 1 }

-- pmmpthread_globals_object_valid, under the lock
unfoldable pub object_valid : ℕ → World → Bool
object_valid a w = if a == 0 then false else w.objects a

-- pmmpthread_globals_object_delete, under the lock
unfoldable pub object_delete : ℕ → World → World
object_delete a w = record w { objects = if a == 0 then w.objects else update w.objects a false }

unfoldable pub ts_object_ctor : Ident → (scope : ℕ) → TsObject
ts_object_ctor t scope = record { refcount = 1; scope = scope; creator = t; modcount = 0 }

-- The count of the object, one more than before. It does not reach 2 ^ 64, since each connection
-- takes memory.
abbrev pub counted_once_more : Option TsObject → (source : ZendObject) → World → Option (ℕ × World)
counted_once_more none source w = none
counted_once_more (some o) source w = some (
  source.ts_obj,
  record w {
    ts_objs = update w.ts_objs source.ts_obj (some (record o { refcount = suc o.refcount }));
  },
)

unfoldable pub connect_nolock : (source : ZendObject) → World → Option (ℕ × World)
connect_nolock source w = counted_once_more (w.ts_objs source.ts_obj) source w

abbrev pub connect_there : Option ZendObject → World → Option (ℕ × World)
connect_there none w = none
connect_there (some source) w = connect_nolock source w

-- The object that a new connection belongs to: that of the connection which is being connected, or a
-- new one at `ts`.
unfoldable pub belongs_to : Ident → (ts scope : ℕ) → Option ℕ → World → Option (ℕ × World)
unfolding ts_object_ctor connect_nolock
belongs_to t ts scope none w =
    some (ts, record w { ts_objs = update w.ts_objs ts (some (ts_object_ctor t scope)) })
belongs_to t ts scope (some source) w = connect_there (at source w.live) w

-- zend_hash_index_add_ptr to the thread's table, which keeps an entry that is there
abbrev pub add_resolve : Option ℕ → Ident → (ts base : ℕ) → World → World
add_resolve none t ts base w = set_resolve w t ts (some base)
add_resolve (some c) t ts base w = w

-- What the memory of a connection holds.
abbrev pub connection : Ident → (base : ℕ) → (worker : Bool) → (ts : ℕ) → TsObject → ZendObject
connection t base worker ts o = record {
  addr = base;
  ts_obj = ts;
  owner = t;
  local_props_modcount = (o.modcount + (2 ^ 64 - 1)) % 2 ^ 64;
  worker_data = worker && (o.creator == t);
}

-- The rest of the constructor, for an object that is there. `worker` tells whether it is the class of
-- workers, whose data is made where the thread is the creator.
unfoldable pub enter : Ident → (base : ℕ) → (worker : Bool) → ℕ → TsObject → World → World
enter t base worker ts o w =
    let z = connection t base worker ts o in
    add_resolve (w.resolve t ts) t ts base (record w { live = z ∷ w.live })

abbrev pub enter_there : Ident → (base : ℕ) → Bool → ℕ → Option TsObject → World → Option World
enter_there t base worker ts none w = none
enter_there t base worker ts (some o) w = some (enter t base worker ts o w)

abbrev pub enter_if : Ident → (base : ℕ) → Bool → Option (ℕ × World) → Option World
enter_if t base worker none = none
enter_if t base worker (some (ts, w)) = enter_there t base worker ts (w.ts_objs ts) w

-- The constructors of the classes: a connection is allocated at `base`, and an object at `ts` unless
-- one is being connected.
unfoldable pub base_ctor : Ident → (base ts scope : ℕ) → World → Option World
unfolding object_alloc belongs_to enter
base_ctor t base ts scope w =
    enter_if t base (scope == scope_worker)
      (belongs_to t ts scope (w.connecting_object t) (object_alloc base w))

abbrev pub set_connecting : Ident → Option ℕ → World → World
set_connecting t o w = record w { connecting_object = update w.connecting_object t o }

abbrev pub connected : Ident → Option World → Option World
connected t none = none
connected t (some w) = some (set_connecting t none w)

-- The connection that a thread makes while `connecting_object` is set to `original`.
unfoldable pub new_connection : Ident → (original base ts scope : ℕ) → World → Option World
unfolding base_ctor
new_connection t original base ts scope w =
    connected t (base_ctor t base ts scope (set_connecting t (some original) w))

abbrev pub addref : ℕ → World → World
addref a w = record w { refs = update w.refs a (suc (w.refs a)) }

abbrev pub returning : ℕ → Option World → Option (Option ℕ × World)
returning c none = none
returning c (some w) = some (some c, w)

-- A connection that the thread does not own, by what its table has for the object.
unfoldable pub reuse_or_connect :
    Option ℕ → Ident → (original base ts scope : ℕ) → World → Option (Option ℕ × World)
unfolding new_connection
reuse_or_connect (some c) t original base ts scope w = some (some c, addref c w)
reuse_or_connect none t original base ts scope w =
    returning base (new_connection t original base ts scope w)

-- The connection to a valid address, by what is there.
unfoldable pub connect_valid :
    Option ZendObject → Ident → (address base ts scope : ℕ) → World → Option (Option ℕ × World)
unfolding reuse_or_connect
connect_valid none t address base ts scope w = none
connect_valid (some original) t address base ts scope w =
    if original.owner == t
    then some (some address, addref address w)
    else reuse_or_connect (w.resolve t original.ts_obj) t address base ts scope w

-- The class of the original is taken to be known to the thread: where it has yet to be copied
-- (`pmmpthread_prepare_single_class`), the objects that its constants hold are connected to on the
-- way, which is left out. The value that the caller receives; `some none` where the address is not valid. `scope` is that of
-- the class of the original.
unfoldable pub object_connect :
    Ident → (address base ts scope : ℕ) → World → Option (Option ℕ × World)
unfolding object_valid connect_valid
object_connect t address base ts scope w =
    if object_valid address w
    then connect_valid (at address w.live) t address base ts scope w
    else some (none, w)

-- The thread's table without the connection, if it is the one that is there.
abbrev pub drop_if : Option ℕ → Ident → ZendObject → World → World
drop_if none t z w = w
drop_if (some c) t z w = if c == z.addr then set_resolve w t z.ts_obj none else w

unfoldable pub drop_resolve : Ident → ZendObject → World → World
drop_resolve t z w = drop_if (w.resolve t z.ts_obj) t z w

-- The object after one of its connections is gone: freed with the last one.
unfoldable pub release : TsObject → Option TsObject
release o = if o.refcount - 1 == 0 then none else some (record o { refcount = o.refcount - 1 })

-- The connection is not the one to the shared globals any more.
unfoldable pub forget_shared : Ident → (base : ℕ) → World → World
forget_shared t base w = record w {
  shared_globals = if w.shared_globals == base then 0 else w.shared_globals;
  local_shared_globals =
      update w.local_shared_globals t
        (if w.local_shared_globals t == base then 0 else w.local_shared_globals t);
}

-- What follows the release of the object, under the lock and after it.
unfoldable pub unregister : Ident → (base : ℕ) → World → World
unfolding object_delete forget_shared
unregister t base w =
    let w = forget_shared t base (object_delete base w) in record w { live = without base w.live }

abbrev pub release_at : Ident → ZendObject → Option TsObject → World → Option World
release_at t z none w = none
release_at t z (some o) w =
    some (unregister t z.addr (record w { ts_objs = update w.ts_objs z.ts_obj (release o) }))

abbrev pub free_there : Ident → Option ZendObject → World → Option World
free_there t none w = none
free_there t (some z) w = release_at t z (w.ts_objs z.ts_obj) (drop_resolve t z w)

unfoldable pub base_free : Ident → (base : ℕ) → World → Option World
unfolding drop_resolve release unregister
base_free t base w = free_there t (at base w.live) w
