-- ===== src/Handlers.antt =====
-- src/handlers.c, as it is built for PHP 8.4 and later: what happens when PHP code reads, writes, tests
-- or unsets a property or an element of a thread-safe object. The engine, the store of the object
-- (src/store.c) and the PHP code that is called are a record `Calls` over a state `S`.
pub mod Writing
pub mod Guards
mod Tests
use Prim.Native.Nat.{bit_and, bit_or}
use Prim.Native.String.{String}
use ext_pmmpthread.Prelude.{
  ℕ, Bool, true, false, not, ◌&&◌, ◌||◌, Option, none, some, ◌==◌, if◌then◌else◌, is_some,
}
use ext_pmmpthread.Bits.{complement}
use ext_pmmpthread.Store.Access.{HasSet, property_exists, property_isset, property_not_empty}

-- The bits of a `zend_guard`, a uint32_t.
abbrev pub in_get : ℕ
in_get = 1

abbrev pub in_set : ℕ
in_set = 2

abbrev pub in_unset : ℕ
in_unset = 4

abbrev pub in_isset : ℕ
in_isset = 8

pub record Hooks : Type 0 where
  pub get : Bool
  pub set : Bool

-- A zend_property_info, as far as it is looked at. `name` is the mangled name; `prototype` stands for
-- the pointer; `set_access` is whether there is no visibility of its own for writing, or the scope has
-- it.
pub record Property : Type 0 where
  pub name : String
  pub static : Bool
  pub virtual : Bool
  pub hooks : Option Hooks
  pub prototype : ℕ
  pub typed : Bool
  pub set_access : Bool

-- What `zend_get_property_info` returns: ZEND_WRONG_PROPERTY_INFO, NULL, or a property.
pub data Info : Type 0 where
  wrong dynamic : Info
  declared : Property → Info

-- The errors that are thrown.
pub data Error : Type 0 where
  write_only read_only no_backing_read no_backing_write uninitialized non_thread_safe visibility
        hooked dynamic_property :
      Error

-- `type`: BP_VAR_R, BP_VAR_IS, or one of the fetches to write, BP_VAR_W, BP_VAR_RW and BP_VAR_UNSET.
pub data Fetch : Type 0 where
  bp_var_r bp_var_is bp_var_w : Fetch

-- The current frame: the prototype of the property whose hook runs, if one does, and its `This`.
pub record Frame : Type 0 where
  pub prototype : Option ℕ
  pub this : ℕ

-- The zval under which the store keeps something: a string that names a property, or any value.
pub data Member (V : Type 0) : Type 0 where
  property : String → Member V
  element : V → Member V

pub record Calls (V S : Type 0) : Type 0 where
  -- the class of the object, and its address
  pub has_get : Bool
  pub has_set : Bool
  pub has_isset : Bool
  pub has_unset : Bool
  pub property_info : String → Info
  pub object : ℕ
  -- the engine
  pub exception : S → Bool
  pub throw : Error → S → S
  pub warn_undefined : String → S → S
  pub guard : String → S → ℕ
  pub set_guard : String → ℕ → S → S
  pub frame : S → Option Frame
  pub verify_type : Property → V → S → Option V × S
  pub is_true : V → Bool
  pub is_null : V → Bool
  -- PHP code
  pub call_get : String → S → V × S
  pub call_set : String → V → S → S
  pub call_isset : String → S → Option V × S
  pub call_unset : String → S → S
  pub get_hook : Property → S → V × S
  pub set_hook : Property → V → S → S
  -- pmmpthread_store_read, _write, _isset and _delete
  pub store_read : Member V → Fetch → S → Option V × S
  pub store_write : Member V → V → S → Bool × S
  pub store_isset : Member V → HasSet → S → Bool
  pub store_delete : Member V → S → S

-- The zval that a handler returns; `unset_rv` is `rv`, to which nothing has been written.
pub data Answer (V : Type 0) : Type 0 where
  value : V → Answer V
  uninitialized_zval error_zval unset_rv : Answer V

module _ {V S : Type 0} (C : Calls V S) where
  -- Whether a magic method is called: there is one and it does not run for this member already.
  abbrev pub calls_magic : Bool → ℕ → String → S → Bool
  calls_magic there bit member s = there && (bit_and (C.guard member s) bit == 0)

  abbrev pub set_bit : ℕ → String → S → S
  set_bit bit member s = C.set_guard member (bit_or (C.guard member s) bit) s

  abbrev pub clear_bit : ℕ → String → S → S
  clear_bit bit member s = C.set_guard member (bit_and (C.guard member s) (complement 32 bit)) s

  abbrev pub same_prototype : ℕ → Option ℕ → Bool
  same_prototype p none = false
  same_prototype p (some q) = p == q

  unfoldable pub is_in_hook : Property → S → Bool
  is_in_hook i s = elim (C.frame s) [
    | none ↦ false
    | some f ↦ same_prototype i.prototype f.prototype
  ]

  unfoldable pub should_call_hook : Property → S → Bool
  unfolding is_in_hook
  should_call_hook i s =
      if not (is_in_hook i s)
      then true
      else elim (C.frame s) [ none ↦ true | some f ↦ not (f.this == C.object) ]

  unfoldable pub read_dimension : V → Fetch → S → Answer V × S
  read_dimension member type s =
      let (r, s) = C.store_read (element member) type s in
      elim r [
        | some v ↦ (value v, s)
        | none ↦ ((if C.exception s then unset_rv else uninitialized_zval), s)
      ]

  -- The value of the hook, or `none` for false.
  unfoldable pub call_get_hook : Property → S → Option V × S
  unfolding should_call_hook
  call_get_hook i s =
      if should_call_hook i s
      then (let (v, s) = C.get_hook i s in (some v, s))
      else (none, if i.virtual then C.throw no_backing_read s else s)

  abbrev pub dynamic_answer : Fetch → String → Option V × S → Answer V × S
  dynamic_answer type member (some v, s) = (value v, s)
  dynamic_answer bp_var_is member (none, s) = (uninitialized_zval, s)
  dynamic_answer _ member (none, s) = (uninitialized_zval, C.warn_undefined member s)

  -- The read of a dynamic property, or of a static one.
  unfoldable pub read_dynamic : Fetch → String → S → Answer V × S
  read_dynamic type member s = dynamic_answer type member (C.store_read (property member) type s)

  abbrev pub throw_unless : Error → S → S
  throw_unless e s = if C.exception s then s else C.throw e s

  abbrev pub backing_answer : Fetch → Option V × S → Answer V × S
  backing_answer type (some v, s) = (value v, s)
  backing_answer bp_var_is (none, s) = (uninitialized_zval, s)
  backing_answer _ (none, s) = (uninitialized_zval, throw_unless Error.uninitialized s)

  -- The read of a declared property under its mangled name.
  unfoldable pub read_backing : Fetch → Property → S → Answer V × S
  read_backing type i s = backing_answer type (C.store_read (property i.name) type s)

  unfoldable pub read_hooked : Fetch → Property → S → Answer V × S
  unfolding call_get_hook read_backing
  read_hooked type i s =
      let (r, s) = call_get_hook i s in
      elim r [
        | some v ↦ (value v, s)
        | none ↦ if C.exception s then (uninitialized_zval, s) else read_backing type i s
      ]

  abbrev pub read_by_hooks : Option Hooks → Fetch → Property → S → Answer V × S
  read_by_hooks none type i s = read_backing type i s
  read_by_hooks (some h) type i s =
      if h.get
      then read_hooked type i s
      else if i.virtual
      then (uninitialized_zval, C.throw write_only s)
      else read_backing type i s

  unfoldable pub read_info : Info → Fetch → String → S → Answer V × S
  unfolding read_dynamic read_hooked
  read_info wrong type member s = (uninitialized_zval, s)
  read_info dynamic type member s = read_dynamic type member s
  read_info (declared i) type member s =
      if i.static then read_dynamic type member s else read_by_hooks i.hooks type i s

  unfoldable pub read_property : Fetch → String → S → Answer V × S
  unfolding read_info
  read_property type member s =
      if calls_magic C.has_get in_get member s
      then (let (v, s) = C.call_get member (set_bit in_get member s) in
          (value v, clear_bit in_get member s))
      else read_info (C.property_info member) type member s
