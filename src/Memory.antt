-- ===== src/Memory.antt =====
-- The C heap that src/queue.c works on: queue items at addresses, and the reference counts of the
-- values that the items hold. An access to an address that holds no item is a fault, and so is the
-- release of a value that nobody holds.
pub mod Cells
pub mod Returns
use ext_pmmpthread.Prelude.{ℕ, suc, ◌+◌, ◌-◌, Bool, Option, none, some, ◌==◌, if◌then◌else◌}

abbrev pub Ptr : Type 0
Ptr = ℕ

abbrev pub null : Ptr
null = 0

-- The object that a zval refers to, by its address.
abbrev pub Value : Type 0
Value = ℕ

-- pmmpthread_queue_item_t
pub record Item : Type 0 where
  pub next : Ptr
  pub prev : Ptr
  pub value : Value

abbrev pub item : Ptr → Ptr → Value → Item
item n p v = record { next = n; prev = p; value = v }

pub record Mem : Type 0 where
  pub cell : Ptr → Option Item
  pub refs : Value → ℕ

abbrev pub update {ℓ} : {A : Type ℓ} → (ℕ → A) → ℕ → A → ℕ → A
update f p a q = if q == p then a else f q

unfoldable pub write : Mem → Ptr → Option Item → Mem
write m p c = record m { cell = update m.cell p c }

unfoldable pub count : Mem → Value → ℕ → Mem
count m v n = record m { refs = update m.refs v n }

pub data Run (A : Type 0) : Type 0 where
  ok : A → Mem → Run A
  fault : Run A
  out_of_fuel : Run A

abbrev pub Cmd : Type 0 → Type 0
Cmd A = Mem → Run A

abbrev pub pure : {A : Type 0} → A → Cmd A
pure = ok

module _ {A B : Type 0} where
  abbrev pub and_then : Run A → (A → Cmd B) → Run B
  and_then (ok a m) k = k a m
  and_then fault k = fault
  and_then out_of_fuel k = out_of_fuel

  infixl 5 ◌>>=◌ ◌>>◌
  abbrev pub ◌>>=◌ : Cmd A → (A → Cmd B) → Cmd B
  c >>= k = λ m. and_then (c m) k

  abbrev pub ◌>>◌ : Cmd A → Cmd B → Cmd B
  c >> d = c >>= λ _. d

-- `*p`
unfoldable pub load : Ptr → Cmd Item
load p m = if p == null then fault else elim (m.cell p) [ none ↦ fault | some i ↦ ok i m ]

-- `*p = i`, at an address that holds an item
unfoldable pub store : Ptr → Item → Cmd (Unit {0})
unfolding load
store p i = load p >> λ m. ok tt (write m p (some i))

-- emalloc and the item's first contents; `fresh` is the address that emalloc returns
unfoldable pub alloc : Ptr → Item → Cmd (Unit {0})
alloc fresh i m = ok tt (write m fresh (some i))

-- efree
unfoldable pub efree : Ptr → Cmd (Unit {0})
unfolding load
efree p = load p >> λ m. ok tt (write m p none)

-- the reference that ZVAL_COPY takes
unfoldable pub addref : Value → Cmd (Unit {0})
addref v m = ok tt (count m v (suc (m.refs v)))

-- zval_ptr_dtor
unfoldable pub zval_ptr_dtor : Value → Cmd (Unit {0})
zval_ptr_dtor v m = if m.refs v == 0 then fault else ok tt (count m v (m.refs v - 1))
