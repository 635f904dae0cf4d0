-- ===== src/Copy/Closures.antt =====
-- src/copy.c: the copy of a closure for a thread, with the references to the connection that it is bound
-- to. What is called for it is in a record.
use Prim.Native.String.{String}
use ext_pmmpthread.Prelude.{
  ℕ, suc, ◌-◌, Bool, true, false, not, ◌⊎◌, inl, inr, Option, none, some, is_some, ◌==◌,
  if◌then◌else◌,
}
use ext_pmmpthread.Memory.{update}

-- zend_closure: `this` is the thread-safe object that it is bound to, if it is, and `fake` is
-- ZEND_ACC_FAKE_CLOSURE; classes and tables of static variables are addresses.
pub record Closure : Type 0 where
  pub this : Option ℕ
  pub fake : Bool
  pub user : Bool
  pub name : String
  pub called_scope : Option ℕ
  pub scope : Option ℕ
  pub static_variables : Option ℕ
  pub static_variables_ptr : Option ℕ

-- The new closure: `this` is the connection.
pub record NewClosure : Type 0 where
  pub this : Option ℕ
  pub func : ℕ
  pub called_scope : Option ℕ
  pub scope : Option ℕ
  pub static_variables : Option ℕ
  pub static_variables_ptr : Option ℕ

-- Why a closure is not copied; each is an exception, unless the call is silent.
pub data Lost : Type 0 where
  lost_this lost_method lost_function : Lost

-- pmmpthread_object_connect, pmmpthread_prepare_single_class, the look-up of a method and of a function,
-- pmmpthread_copy_statics, and the definition that pmmpthread_copy_function_ex gives.
pub record Calls : Type 0 where
  pub connect : ℕ → Option ℕ
  pub local_class : ℕ → ℕ
  pub method : ℕ → String → Option ℕ
  pub find_function : String → Option ℕ
  pub copy_statics : ℕ → ℕ
  pub definition : ℕ

-- The references to each connection.
abbrev pub Refs : Type 0
Refs = ℕ → ℕ

-- The connection in `this_zv`, or none.
abbrev pub addref : Option ℕ → Refs → Refs
addref none r = r
addref (some c) r = update r c (suc (r c))

abbrev pub release : Option ℕ → Refs → Refs
release none r = r
release (some c) r = update r c (r c - 1)

abbrev pub apply : (ℕ → ℕ) → Option ℕ → Option ℕ
apply f none = none
apply f (some a) = some (f a)

-- What a call comes to: the closure or the reason, and whether an exception is thrown.
pub record Outcome : Type 0 where
  pub result : Lost ⊎ NewClosure
  pub thrown : Bool
  pub refs : Refs

module _ (C : Calls) (silent : Bool) where
  abbrev pub failed : Lost → Refs → Outcome
  failed why r = record { result = inl why; thrown = not silent; refs = r }

  -- The new closure takes a reference of its own, and that of `this_zv` is released.
  abbrev pub created : Option ℕ → NewClosure → Refs → Outcome
  created this_zv c r = record {
    result = inr c;
    thrown = false;
    refs = release this_zv (addref this_zv r);
  }

  abbrev pub origin_class : Closure → Option ℕ
  origin_class o = elim o.called_scope [ some c ↦ some c | none ↦ o.scope ]

  abbrev pub fake_found : Closure → Option ℕ → Lost → Option ℕ → Refs → Outcome
  fake_found o this_zv why none r = failed why r
  fake_found o this_zv why (some f) r =
      created this_zv
        (record {
          this = this_zv;
          func = f;
          called_scope = apply C.local_class o.called_scope;
          scope = apply C.local_class o.scope;
          static_variables = none;
          static_variables_ptr = none;
        })
        r

  abbrev pub copy_fake : Closure → Option ℕ → (origin : Option ℕ) → Refs → Outcome
  copy_fake o this_zv none r = fake_found o this_zv lost_function (C.find_function o.name) r
  copy_fake o this_zv (some c) r =
      fake_found o this_zv lost_method (C.method (C.local_class c) o.name) r

  abbrev pub same_table : Option ℕ → Option ℕ → Bool
  same_table none none = true
  same_table (some a) (some b) = a == b
  same_table none (some b) = false
  same_table (some a) none = false

  -- The table that is in use is shared with the other one where it was.
  abbrev pub copied_ptr : Closure → (copied : Option ℕ) → Option ℕ
  copied_ptr o copied =
      if same_table o.static_variables_ptr o.static_variables
      then copied
      else apply C.copy_statics o.static_variables_ptr

  abbrev pub copy_real : Closure → Option ℕ → Refs → Outcome
  copy_real o this_zv r =
      let statics = if o.user then apply C.copy_statics o.static_variables else none in
      let ptr = if o.user then copied_ptr o statics else none in
      created this_zv
        (record {
          this = this_zv;
          func = C.definition;
          called_scope = apply C.local_class o.called_scope;
          scope = apply C.local_class o.scope;
          static_variables = statics;
          static_variables_ptr = if is_some statics then ptr else none;
        })
        r

  abbrev pub copy_bound : Closure → (this_zv : Option ℕ) → Refs → Outcome
  copy_bound o this_zv r =
      if o.fake then copy_fake o this_zv (origin_class o) r else copy_real o this_zv r

  -- The connection is a reference of this call.
  abbrev pub connected : Closure → Option ℕ → Refs → Outcome
  connected o none r = failed lost_this r
  connected o (some c) r = copy_bound o (some c) (addref (some c) r)

  abbrev pub copy_this : Closure → Option ℕ → Refs → Outcome
  copy_this o none r = copy_bound o none r
  copy_this o (some obj) r = connected o (C.connect obj) r

  unfoldable pub copy_closure : Closure → Refs → Outcome
  copy_closure o r = copy_this o o.this r

-- A class of the thread: whether it is an enum, and its cases, which are objects.
pub record EnumClass : Type 0 where
  pub is_enum : Bool
  pub case_of : String → Option ℕ

-- What pmmpthread_resolve_enum_reference comes to: an object, an error, or a read through NULL.
pub data Resolved : Type 0 where
  member : ℕ → Resolved
  not_restored null_read : Resolved

abbrev pub member_or : Option ℕ → Resolved
member_or none = not_restored
member_or (some o) = member o

-- The message of the error has the name of the class.
unfoldable pub resolve_enum_reference : Option EnumClass → String → Resolved
resolve_enum_reference none name = null_read
resolve_enum_reference (some e) name =
    if e.is_enum then member_or (e.case_of name) else not_restored
