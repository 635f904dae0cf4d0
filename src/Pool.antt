-- ===== src/Pool.antt =====
-- src/classes/pool.c: pools of workers. What the methods call on a worker, and the lookup of classes,
-- are the record `Calls`; they act on a state `S`, the rest of the program, and leave the pool alone.
pub mod Workers
pub mod Resize
pub mod Submit
pub mod Given
pub mod Robin
pub mod Shutdown
mod Tests
use ext_pmmpthread.Prelude.{
  ℕ, zero, suc, ◌+◌, ◌-◌, ◌%◌, ◌^◌, Bool, true, false, not, Option, none, some, List, [], ◌∷◌,
  length, ◌==◌, if◌then◌else◌, ℤ, pos, at_least, below, same,
}

-- A PHP array with integer keys, in its order. A key is a zend_ulong.
abbrev pub Array : Type 0 → Type 0
Array W = List (ℕ × W)

module _ {W : Type 0} where
  -- zend_hash_index_find
  abbrev pub index_find : Array W → ℕ → Option W
  index_find [] k = none
  index_find ((j, w) ∷ ws) k = if j == k then some w else index_find ws k

  -- zend_hash_index_update
  abbrev pub index_update : Array W → ℕ → W → Array W
  index_update [] k v = (k, v) ∷ []
  index_update ((j, w) ∷ ws) k v = if j == k then (j, v) ∷ ws else (j, w) ∷ index_update ws k v

  -- zend_hash_index_del
  abbrev pub index_del : Array W → ℕ → Array W
  index_del [] k = []
  index_del ((j, w) ∷ ws) k = if j == k then ws else (j, w) ∷ index_del ws k

-- PMMPTHREAD_INHERIT_ALL
abbrev inherit_all : ℕ
inherit_all = 1118481

-- Classes, constructor arguments and callables are numbers that name them.
pub record Calls (W T S : Type 0) : Type 0 where
  pub worker_class : ℕ
  pub extends_worker : ℕ → Bool
  pub lookup_class : ℕ → Bool
  pub object_init : ℕ → S → W × S
  pub has_constructor : W → Bool
  pub call_constructor : W → Option ℕ → S → S
  pub start : W → ℕ → S → S
  pub stack : W → T → S → S
  pub shutdown : W → S → S
  pub worker_collect_tasks : Option ℕ → W → S → ℕ × S

-- What a submission comes to.
pub data Submitted : Type 0 where
  submitted : ℕ → Submitted
  class_not_valid class_not_found no_worker : Submitted

module _ (W : Type 0) where
  -- The properties of a pool. `workers` is `none` while it is no array, `class` while it is no string.
  -- `last` is only ever a number that a submission has counted to.
  pub record Pool : Type 0 where
    pub size : ℤ
    pub class : Option ℕ
    pub workers : Option (Array W)
    pub ctor : Option ℕ
    pub last : ℕ

  -- An object of the class before its constructor is called.
  abbrev pub object : Pool
  object = record { size = pos 0; class = none; workers = none; ctor = none; last = 0 }

  -- What the loop of a resize comes to.
  pub data Resized (S : Type 0) : Type 0 where
    ended : Array W → S → Resized S
    out_of_fuel : Resized S

module _ {W : Type 0} where
  -- The array of workers, made where there is none.
  abbrev pub workers_of : Pool W → Array W
  workers_of p = elim p.workers [ none ↦ [] | some ws ↦ ws ]

  -- The key that a submission goes to.
  abbrev pub next_key : Pool W → ℕ
  next_key p = if at_least p.last p.size then 0 else p.last

abbrev pub or_else : Option ℕ → ℕ → ℕ
or_else none d = d
or_else (some c) d = c

module _ {W T S : Type 0} (C : Calls W T S) where
  -- Whether an exception is thrown, and the pool, whose properties are set in any case.
  unfoldable pub construct : (size : ℤ) (clazz ctor : Option ℕ) → Pool W → Bool × Pool W
  construct size clazz ctor p =
      let c = or_else clazz C.worker_class in
      (
        not (C.extends_worker c),
        record p {
          size = size;
          class = some c;
          ctor = elim ctor as (λ _. Option ℕ) [ none ↦ p.ctor | some a ↦ some a ];
        },
      )

  -- The key `top - 1`, for a `top` of 0 the greatest zend_ulong.
  abbrev pub top_key : ℕ → ℕ
  top_key zero = 2 ^ 64 - 1
  top_key (suc n) = n

  abbrev pub shut_found : Option W → S → S
  shut_found none s = s
  shut_found (some w) s = C.shutdown w s

  unfoldable pub resize_loop : ℕ → ℤ → Array W → S → Resized W S
  resize_loop zero newsize ws s = out_of_fuel
  resize_loop (suc k) newsize ws s =
      let key = top_key (length ws) in
      let s' = shut_found (index_find ws key) s in
      let ws' = index_del ws key in
      elim (same (length ws') newsize) [
        | true ↦ ended ws' s'
        | false ↦ resize_loop k newsize ws' s'
      ]

  -- The number of workers brought down to `newsize`; `none` is out of fuel.
  unfoldable pub shrink : ℕ → ℤ → Array W → S → Option (Array W × S)
  unfolding resize_loop
  shrink fuel newsize ws s = elim (below newsize (length ws)) [
    | false ↦ some (ws, s)
    | true ↦ elim (resize_loop fuel newsize ws s) [
      | out_of_fuel ↦ none
      | ended ws' s' ↦ some (ws', s')
    ]
  ]

  unfoldable pub resize : ℕ → ℤ → Pool W → S → Option (Pool W × S)
  unfolding shrink
  resize fuel newsize p s = elim p.workers [
    | none ↦ some (record p { size = newsize }, s)
    | some ws ↦ elim (shrink fuel newsize ws s) [
      | none ↦ none
      | some (ws', s') ↦ some (record p { size = newsize; workers = some ws' }, s')
    ]
  ]

  -- A worker, constructed where its class has a constructor, and started.
  unfoldable pub new_worker : (class : ℕ) (ctor : Option ℕ) → S → W × S
  new_worker class ctor s =
      let (w, s) = C.object_init class s in
      let s = if C.has_constructor w then C.call_constructor w ctor s else s in
      (w, C.start w inherit_all s)

  -- What selecting a worker comes to: the key or an exception, the worker, and the pool after.
  abbrev pub Selection : Type 0
  Selection = (Submitted × Option W) × (Pool W × S)

  -- A new worker at the key, if its class has been found.
  unfoldable pub add_worker : (looked_up : Bool) (class key : ℕ) → Pool W → S → Selection
  unfolding new_worker
  add_worker false c key p s = ((class_not_found, none), (p, s))
  add_worker true c key p s =
      let (w, s) = new_worker c p.ctor s in
      (
        (submitted key, some w),
        (record p { workers = some (index_update (workers_of p) key w) }, s),
      )

  unfoldable pub create_worker : (class : Option ℕ) (key : ℕ) → Pool W → S → Selection
  unfolding add_worker
  create_worker none key p s = ((class_not_valid, none), (p, s))
  create_worker (some c) key p s = add_worker (C.lookup_class c) c key p s

  unfoldable pub select : (found : Option W) (key : ℕ) → Pool W → S → Selection
  unfolding create_worker
  select (some w) key p s = ((submitted key, some w), (p, s))
  select none key p s = create_worker p.class key p s

  abbrev pub give_task : T → Selection → Submitted × (Pool W × S)
  give_task t ((r, none), end) = (r, end)
  give_task t ((r, some w), (p, s)) = (r, (record p { last = suc p.last }, C.stack w t s))

  -- What is returned or thrown, and the pool after.
  unfoldable pub submit : T → Pool W → S → Submitted × (Pool W × S)
  unfolding select
  submit t p s =
      let key = next_key p in
      let p = record p { workers = some (workers_of p); last = key } in
      give_task t (select (index_find (workers_of p) key) key p s)

  unfoldable pub submit_to : ℕ → T → Pool W → S → Submitted × (Pool W × S)
  submit_to key t p s =
      let p = record p { workers = some (workers_of p) } in
      elim (index_find (workers_of p) key) [
        | none ↦ (no_worker, (p, s))
        | some w ↦ (submitted key, (p, C.stack w t s))
      ]

  -- The loop over the workers. The sum is a zend_long, as its 64 bits.
  unfoldable pub collect_workers : (collector : Option ℕ) → Array W → ℕ → S → ℕ × S
  collect_workers f [] n s = (n, s)
  collect_workers f ((k, w) ∷ ws) n s =
      let (m, s) = C.worker_collect_tasks f w s in collect_workers f ws ((n + m) % 2 ^ 64) s

  unfoldable pub collect : (collector : Option ℕ) → Pool W → S → ℕ × S
  unfolding collect_workers
  collect f p s = elim p.workers [ none ↦ (0, s) | some ws ↦ collect_workers f ws 0 s ]

  -- zend_hash_apply, with a callback that has every element removed.
  unfoldable pub shutdown_loop : Array W → S → S
  shutdown_loop [] s = s
  shutdown_loop ((k, w) ∷ ws) s = shutdown_loop ws (C.shutdown w s)

  unfoldable pub shutdown : Pool W → S → Pool W × S
  unfolding shutdown_loop
  shutdown p s = elim p.workers [
    | none ↦ (p, s)
    | some ws ↦ (record p { workers = some [] }, shutdown_loop ws s)
  ]
