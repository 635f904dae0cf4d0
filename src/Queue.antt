-- ===== src/Queue.antt =====
-- src/queue.c: the doubly linked queue of tasks. The struct `pmmpthread_queue` lives outside the
-- heap of items (in a worker's data or on a stack), so a function that updates one returns its new
-- value. `size` is a zend_long: its 64 bits are kept, so -1 is `2 ^ 64 - 1`.
pub mod Chain
pub mod Refines
pub mod Detach
pub mod Remove
pub mod Ends
pub mod Clean
mod Tests
use ext_pmmpthread.Prelude.{
  ℕ, zero, suc, ◌+◌, ◌-◌, ◌%◌, ◌^◌, Bool, true, false, ◌&&◌, Option, none, some, ◌==◌,
  if◌then◌else◌,
}
use ext_pmmpthread.Memory.{
  Ptr, null, Value, item, Cmd, out_of_fuel, pure, ◌>>=◌, ◌>>◌, load, store, alloc, efree, addref,
  zval_ptr_dtor,
}

pub record Queue : Type 0 where
  pub size : ℕ
  pub head : Ptr
  pub tail : Ptr

-- memset(queue, 0, sizeof *queue), and what ecalloc leaves
abbrev pub empty : Queue
empty = record { size = 0; head = null; tail = null }

abbrev pub long_mod : ℕ
long_mod = 2 ^ 64

abbrev pub inc : ℕ → ℕ
inc n = (n + 1) % long_mod

abbrev pub dec : ℕ → ℕ
dec n = (n + (long_mod - 1)) % long_mod

-- The loop of `pmmpthread_queue_clean`: one round for each item.
unfoldable pub clean_loop : ℕ → Ptr → Cmd (Unit {0})
clean_loop zero p = λ _. out_of_fuel
clean_loop (suc k) p =
    if p == null
    then pure tt
    else do i ← load p; zval_ptr_dtor i.value; i ← load p; efree p; clean_loop k i.next

-- The queue struct keeps its pointers: its owner frees it next.
unfoldable pub clean : ℕ → Queue → Cmd (Unit {0})
unfolding clean_loop
clean fuel q = clean_loop fuel q.head

-- emalloc does not return on failure; the links of the new item are not set yet.
unfoldable pub item_new : (fresh : Ptr) → Value → Cmd Ptr
item_new fresh v = do alloc fresh (item null null v); addref v; pure fresh

unfoldable pub set_prev_and_next : Ptr → (prev next : Ptr) → Cmd (Unit {0})
set_prev_and_next p prev next = do i ← load p; store p (record i { prev = prev; next = next })

abbrev pub set_next : Ptr → Ptr → Cmd (Unit {0})
set_next p next = do i ← load p; store p (record i { next = next })

abbrev pub set_prev : Ptr → Ptr → Cmd (Unit {0})
set_prev p prev = do i ← load p; store p (record i { prev = prev })

unfoldable pub push : Queue → Ptr → Cmd Queue
unfolding set_prev_and_next
push q p =
    if q.tail == null
    then (do set_prev_and_next p null null; pure (record { size = inc q.size; head = p; tail = p }))
    else do
      set_next q.tail p
      set_prev_and_next p q.tail null
      pure (record q { size = inc q.size; tail = p })

unfoldable pub push_new : (fresh : Ptr) → Queue → Value → Cmd Queue
unfolding item_new push
push_new fresh q v = do p ← item_new fresh v; push q p

-- Unlike `push` the source does not count the new item.
unfoldable pub unshift : Queue → Ptr → Cmd Queue
unfolding set_prev_and_next
unshift q p =
    if q.head == null
    then (do set_prev_and_next p null null; pure (record q { head = p; tail = p }))
    else do set_prev q.head p; set_prev_and_next p null q.head; pure (record q { head = p })

unfoldable pub unshift_new : (fresh : Ptr) → Queue → Value → Cmd Queue
unfolding item_new unshift
unshift_new fresh q v = do p ← item_new fresh v; unshift q p

-- What `pmmpthread_queue_remove` is asked to do: hand the value out (`value` is not NULL) or release
-- it, and free the item (`PMMPTHREAD_STACK_FREE`) or not (`PMMPTHREAD_STACK_NOTHING`).
pub record Mode : Type 0 where
  pub want : Bool
  pub free : Bool

-- The queue after a call, the value handed out, and the size returned.
pub record Removed : Type 0 where
  pub queue : Queue
  pub value : Option Value
  pub returned : ℕ

-- `queue->head = item->next; queue->head->prev = NULL;`
unfoldable pub detach_head : Queue → Ptr → Cmd Queue
detach_head q p = do i ← load p; set_prev i.next null; pure (record q { head = i.next })

-- `queue->tail = item->prev; queue->tail->next = NULL;`
unfoldable pub detach_tail : Queue → Ptr → Cmd Queue
detach_tail q p = do i ← load p; set_next i.prev null; pure (record q { tail = i.prev })

unfoldable pub detach_inner : Queue → Ptr → Cmd Queue
detach_inner q p = do i ← load p; set_prev i.next i.prev; set_next i.prev i.next; pure q

-- The four branches that take the item out of the links.
unfoldable pub detach : Queue → Ptr → Cmd Queue
unfolding detach_head detach_tail detach_inner
detach q p =
    if (q.head == p) && (q.tail == p)
    then pure (record q { head = null; tail = null })
    else if q.head == p
    then detach_head q p
    else if q.tail == p
    then detach_tail q p
    else detach_inner q p

-- `memcpy(value, &item->value)` or `zval_ptr_dtor(&item->value)`
unfoldable pub hand_out : Bool → Ptr → Cmd (Option Value)
hand_out true p = do i ← load p; pure (some i.value)
hand_out false p = do i ← load p; zval_ptr_dtor i.value; pure none

unfoldable pub discard : Bool → Ptr → Cmd (Unit {0})
discard true p = efree p
discard false p = pure tt

unfoldable pub remove : Queue → Ptr → Mode → Cmd Removed
remove q p mode = if p == null then pure (record { queue = q; value = none; returned = 0 }) else do
  q ← detach q p
  v ← hand_out mode.want p
  discard mode.free p
  pure (record { queue = record q { size = dec q.size }; value = v; returned = dec q.size })

unfoldable pub shift : Queue → Mode → Cmd Removed
shift q mode = remove q q.head mode

unfoldable pub pop : Queue → Mode → Cmd Removed
pop q mode = remove q q.tail mode
