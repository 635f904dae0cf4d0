-- ===== src/Handlers/Tests.antt =====
-- The theorem about src/handlers.c at a concrete class, and runs of the code.
use Prim.Native.String.{String}
use text.Mathlib.Text.{◌==◌ as str_eq}
use ext_pmmpthread.Prelude.{
  ℕ, ◌≡◌, refl, Bool, true, false, not, Option, none, some, List, [], ◌∷◌, ◌==◌, if◌then◌else◌,
}
use ext_pmmpthread.Store.Access.{HasSet}
use ext_pmmpthread.Handlers.{
  Property, Info, dynamic, declared, bp_var_is, Member, property, element, Calls,
  uninitialized_zval, read_property, read_info, read_dynamic,
}
use ext_pmmpthread.Handlers.Writing.{has_property, unset_property, unset_info, compare_objects}

abbrev Kept : Type 0
Kept = List (String × ℕ)

abbrev held : String → Kept → Option ℕ
held k [] = none
held k ((j, v) ∷ s) = if str_eq k j then some v else held k s

abbrev removed : String → Kept → Kept
removed k [] = []
removed k ((j, v) ∷ s) = if str_eq k j then removed k s else (j, v) ∷ removed k s

abbrev read_member : Member ℕ → Kept → Option ℕ
read_member (property k) s = held k s
read_member (element v) s = none

abbrev write_member : Member ℕ → ℕ → Kept → Bool × Kept
write_member (property k) v s = (true, (k, v) ∷ s)
write_member (element n) v s = (false, s)

abbrev forget_member : Member ℕ → Kept → Kept
forget_member (property k) s = removed k s
forget_member (element n) s = s

-- A declared property without hooks and without a type.
abbrev plain : String → ℕ → Bool → Property
plain name prototype set_access = record {
  name = name;
  static = false;
  virtual = false;
  hooks = none;
  prototype = prototype;
  typed = false;
  set_access = set_access;
}

-- The members `x` of a class A and `y`, which is the private `x` of its parent B.
abbrev infos : String → Info
infos m =
    if str_eq m "x"
    then declared (plain "A.x" 1 true)
    else if str_eq m "y"
    then declared (plain "B.x" 2 true)
    else dynamic

abbrev calls : Calls ℕ Kept
calls = record {
  has_get = false;
  has_set = false;
  has_isset = true;
  has_unset = false;
  property_info = infos;
  object = 1;
  exception = λ s. false;
  throw = λ e s. s;
  warn_undefined = λ m s. s;
  guard = λ m s. 0;
  set_guard = λ m g s. s;
  frame = λ s. none;
  verify_type = λ i v s. (some v, s);
  is_true = λ v. not (v == 0);
  is_null = λ v. false;
  call_get = λ m s. (0, s);
  call_set = λ m v s. s;
  call_isset = λ m s. (some 1, s);
  call_unset = λ m s. s;
  get_hook = λ i s. (0, s);
  set_hook = λ i v s. s;
  store_read = λ m type s. (read_member m s, s);
  store_write = write_member;
  store_isset = λ m h s. false;
  store_delete = forget_member;
}

-- A property that is not there reads as NULL.
undefined : (read_property calls bp_var_is "z" []).0 ≡ uninitialized_zval
unfolding read_property read_info read_dynamic
undefined = refl

unset_x : unset_property calls "x" (("A.x", 7) ∷ ("B.x", 5) ∷ []) ≡ ("B.x", 5) ∷ []
unfolding unset_property unset_info
unset_x = refl

-- The test for a value that is not empty takes the answer of `__isset`, and never reads the value.
not_empty : (has_property calls "x" HasSet.property_not_empty (("A.x", 0) ∷ [])).0 ≡ true
unfolding has_property
not_empty = refl

same_object : compare_objects 4 4 ≡ 0
unfolding compare_objects
same_object = refl

-- A class with `__get`, which clears all guards; the state is the one word that guards the members.
abbrev guarding : Calls ℕ ℕ
guarding = record {
  has_get = true;
  has_set = true;
  has_isset = false;
  has_unset = false;
  property_info = λ m. dynamic;
  object = 1;
  exception = λ s. false;
  throw = λ e s. s;
  warn_undefined = λ m s. s;
  guard = λ m s. s;
  set_guard = λ m g s. g;
  frame = λ s. none;
  verify_type = λ i v s. (some v, s);
  is_true = λ v. not (v == 0);
  is_null = λ v. false;
  call_get = λ m s. (5, 0);
  call_set = λ m v s. s;
  call_isset = λ m s. (some 1, s);
  call_unset = λ m s. s;
  get_hook = λ i s. (0, s);
  set_hook = λ i v s. s;
  store_read = λ m type s. (none, s);
  store_write = λ m v s. (true, s);
  store_isset = λ m h s. false;
  store_delete = λ m s. s;
}
