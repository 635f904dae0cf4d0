-- ===== src/Handlers/Writing.antt =====
-- src/handlers.c: writing, testing and unsetting properties and elements, and comparing objects.
use Prim.Native.String.{String}
use ext_pmmpthread.Prelude.{ℕ, Bool, true, false, not, Option, none, some, ◌==◌, if◌then◌else◌}
use ext_pmmpthread.Store.Access.{HasSet}
use ext_pmmpthread.Handlers.{
  in_set, in_unset, in_isset, Hooks, Property, Info, wrong, dynamic, declared, read_only,
  write_only, no_backing_write, visibility, non_thread_safe, hooked, dynamic_property, Fetch,
  bp_var_is, Member, property, element, Calls, Answer, value, uninitialized_zval, error_zval,
  calls_magic, set_bit, clear_bit, should_call_hook, call_get_hook, throw_unless,
}

module _ {V S : Type 0} (C : Calls V S) where
  -- Whether the store is still to be written, the zval that is returned, and the state.
  abbrev pub Checked : Type 0
  Checked = Bool × (Answer V × S)

  -- The hooks of a declared property, before a write.
  unfoldable pub write_hooks : Option Hooks → Property → V → S → Checked
  unfolding should_call_hook
  write_hooks none i v s = (true, (value v, s))
  write_hooks (some h) i v s =
      if not h.set
      then (if i.virtual then (false, (error_zval, C.throw read_only s)) else (true, (value v, s)))
      else if not (should_call_hook C i s)
      then (if i.virtual
          then (false, (error_zval, C.throw no_backing_write s))
          else (true, (value v, s)))
      else if not i.set_access
      then (false, (error_zval, C.throw visibility s))
      else (false, (value v, C.set_hook i v s))

  -- The value with its type checked, or `none` where it does not fit.
  abbrev pub verified : Property → V → S → Option V × S
  verified i v s = if i.typed then C.verify_type i v s else (some v, s)

  -- The write to the store of a value that has been checked; the value that was given is returned.
  unfoldable pub write_store : Member V → Option V → Answer V → S → Answer V × S
  write_store m none a s = (a, s)
  write_store m (some v) a s =
      let (ok, s) = C.store_write m v s in (a, if ok then s else throw_unless C non_thread_safe s)

  unfoldable pub write_declared : Property → V → S → Answer V × S
  unfolding write_hooks write_store
  write_declared i v s =
      let (write, (a, s)) = write_hooks i.hooks i v s in
      if write
      then (let (checked, s) = verified i v s in write_store (property i.name) checked a s)
      else (a, s)

  unfoldable pub write_info : Info → String → V → S → Answer V × S
  unfolding write_declared
  write_info wrong member v s = (error_zval, s)
  write_info dynamic member v s = write_store (property member) (some v) (value v) s
  write_info (declared i) member v s =
      if i.static then write_store (property member) (some v) (value v) s else write_declared i v s

  abbrev pub or_error : Answer V × S → Answer V × S
  or_error (a, s) = ((if C.exception s then error_zval else a), s)

  unfoldable pub write_property : String → V → S → Answer V × S
  unfolding write_info
  write_property member v s = or_error (
      if calls_magic C C.has_set in_set member s
      then (value v, clear_bit C in_set member (C.call_set member v (set_bit C in_set member s)))
      else write_info (C.property_info member) member v s)

  unfoldable pub write_dimension : V → V → S → S
  write_dimension member v s =
      let (ok, s) = C.store_write (element member) v s in
      if ok then s else throw_unless C non_thread_safe s

  -- What a value says of a property that has it.
  abbrev pub value_is_set : HasSet → V → Bool
  value_is_set HasSet.property_not_empty v = C.is_true v
  value_is_set _ v = not (C.is_null v)

  -- A test of a property that has a hook for reading.
  unfoldable pub has_get_hooked : Property → HasSet → S → Bool × S
  unfolding call_get_hook
  has_get_hooked i h s =
      let (r, s) = call_get_hook C i s in
      elim r [
        | some v ↦ (value_is_set h v, s)
        | none ↦ if C.exception s then (false, s) else (C.store_isset (property i.name) h s, s)
      ]

  unfoldable pub has_hooks : Hooks → Property → HasSet → S → Bool × S
  unfolding has_get_hooked
  has_hooks hooks i HasSet.property_exists s = (true, s)
  has_hooks hooks i h s =
      if hooks.get
      then has_get_hooked i h s
      else if i.virtual
      then (false, C.throw write_only s)
      else (C.store_isset (property i.name) h s, s)

  abbrev pub has_declared : Option Hooks → Property → HasSet → S → Bool × S
  has_declared none i h s = (C.store_isset (property i.name) h s, s)
  has_declared (some hooks) i h s = has_hooks hooks i h s

  unfoldable pub has_info : Info → String → HasSet → S → Bool × S
  unfolding has_hooks
  has_info wrong member h s = (false, s)
  has_info dynamic member h s = (C.store_isset (property member) h s, s)
  has_info (declared i) member h s =
      if i.static then (C.store_isset (property member) h s, s) else has_declared i.hooks i h s

  abbrev pub returned_true : Option V → Bool
  returned_true none = false
  returned_true (some v) = C.is_true v

  unfoldable pub has_property : String → HasSet → S → Bool × S
  unfolding has_info
  has_property member h s =
      if calls_magic C C.has_isset in_isset member s
      then (let (r, s) = C.call_isset member (set_bit C in_isset member s) in
          (returned_true r, clear_bit C in_isset member s))
      else has_info (C.property_info member) member h s

  unfoldable pub has_dimension : V → HasSet → S → Bool
  has_dimension member h s = C.store_isset (element member) h s

  abbrev pub unset_declared : Option Hooks → Property → S → S
  unset_declared none i s = C.store_delete (property i.name) s
  unset_declared (some h) i s = C.throw hooked s

  unfoldable pub unset_info : Info → String → S → S
  unset_info wrong member s = s
  unset_info dynamic member s = C.store_delete (property member) s
  unset_info (declared i) member s =
      if i.static then C.store_delete (property member) s else unset_declared i.hooks i s

  unfoldable pub unset_property : String → S → S
  unfolding unset_info
  unset_property member s =
      if calls_magic C C.has_unset in_unset member s
      then clear_bit C in_unset member (C.call_unset member (set_bit C in_unset member s))
      else unset_info (C.property_info member) member s

  unfoldable pub unset_dimension : V → S → S
  unset_dimension member s = C.store_delete (element member) s

  -- The handlers of classes that have no properties.
  unfoldable pub read_property_deny : Fetch → String → S → Answer V × S
  read_property_deny bp_var_is member s = (uninitialized_zval, s)
  read_property_deny _ member s = (uninitialized_zval, C.warn_undefined member s)

  unfoldable pub write_property_deny : String → V → S → Answer V × S
  write_property_deny member v s = (uninitialized_zval, C.throw dynamic_property s)

  unfoldable pub has_property_deny : String → HasSet → S → Bool
  has_property_deny member h s = false

  unfoldable pub unset_property_deny : String → S → S
  unset_property_deny member s = s

-- 0 for two connections of the same object.
unfoldable pub compare_objects : (left right : ℕ) → ℕ
compare_objects left right = if left == right then 0 else 1
