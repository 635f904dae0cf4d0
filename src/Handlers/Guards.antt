-- ===== src/Handlers/Guards.antt =====
-- The guards of the magic methods in src/handlers.c.
use Prim.Native.String.{String}
use ext_pmmpthread.Prelude.{ℕ, ◌≡◌, Bool, true, if◌then◌else◌}
use ext_pmmpthread.Store.Access.{HasSet}
use ext_pmmpthread.Handlers.{
  Calls, Fetch, in_get, in_set, in_unset, in_isset, calls_magic, set_bit, read_property, read_info,
}
use ext_pmmpthread.Handlers.Writing.{
  write_property, write_info, or_error, has_property, has_info, unset_property, unset_info,
}

module _ {V S : Type 0} (C : Calls V S) where
  -- `zend_get_property_guard` gives access to one word for each member, which keeps what is set.
  abbrev pub KeepsGuard : Type 0
  KeepsGuard = (m : String) (g : ℕ) (s : S) → C.guard m (C.set_guard m g s) ≡ g

  -- Whether the method can be called after `after` if it could be before.
  abbrev pub released : Bool → ℕ → String → S → S → Bool
  released there b m s after =
      if calls_magic C there b m s then calls_magic C there b m after else true

  -- `inside` are the states in which the method runs.
  pub record IsGuarded (type : Fetch) (h : HasSet) (m : String) (v : V) (s : S) : Type 0 where
    pub read_inside :
        read_property C type m (set_bit C in_get m s)
        ≡ read_info C (C.property_info m) type m (set_bit C in_get m s)
    pub read_after : released C.has_get in_get m s (read_property C type m s).1 ≡ true
    pub write_inside :
        write_property C m v (set_bit C in_set m s)
        ≡ or_error C (write_info C (C.property_info m) m v (set_bit C in_set m s))
    pub write_after : released C.has_set in_set m s (write_property C m v s).1 ≡ true
    pub test_inside :
        has_property C m h (set_bit C in_isset m s)
        ≡ has_info C (C.property_info m) m h (set_bit C in_isset m s)
    pub test_after : released C.has_isset in_isset m s (has_property C m h s).1 ≡ true
    pub unset_inside :
        unset_property C m (set_bit C in_unset m s)
        ≡ unset_info C (C.property_info m) m (set_bit C in_unset m s)
    pub unset_after : released C.has_unset in_unset m s (unset_property C m s) ≡ true
