-- ===== src/Memory/Cells.antt =====
-- Reading and writing one item.
use ext_pmmpthread.Prelude.{◌≡◌, ◌≢◌, false, ◌-◌, ◌<◌, none, some, Option, arith, ◌==◌}
use ext_pmmpthread.Memory.{
  Ptr, null, Value, Item, Mem, write, count, ok, load, store, efree, zval_ptr_dtor,
}

-- `p` holds an item.
pub record Holds (m : Mem) (p : Ptr) (i : Item) : Type 0 where
  pub ne_null : p ≢ null
  pub holds : m.cell p ≡ some i

module _ {m : Mem} {p : Ptr} {i : Item} (h : Holds m p i) where
  pub not_null : (p == null) ≡ false
  not_null = ground arith

  pub load-ok : load p m ≡ ok i m
  unfolding load
  load-ok = rw (not_null, h.holds)

  pub store-ok : (j : Item) → store p j m ≡ ok tt (write m p (some j))
  unfolding store
  store-ok j = rw (not_null, h.holds)

  pub efree-ok : efree p m ≡ ok tt (write m p none)
  unfolding efree
  efree-ok = rw (not_null, h.holds)

  pub Holds-write_self : (j : Item) → Holds (write m p (some j)) p j
  unfolding write
  Holds-write_self j = ground arith

  pub Holds-write_ne : (q : Ptr) (c : Option Item) → p ≢ q → Holds (write m q c) p i
  unfolding write
  Holds-write_ne q c ne = ground arith

pub dtor-ok :
    (v : Value) (m : Mem) → 0 < m.refs v → zval_ptr_dtor v m ≡ ok tt (count m v (m.refs v - 1))
unfolding zval_ptr_dtor
dtor-ok v m h = ground arith
