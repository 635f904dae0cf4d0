-- ===== src/Store/Types.antt =====
-- src/store_types.h, and the values of PHP as far as src/store.c tells them apart.
use ext_pmmpthread.Prelude.{ℕ, Bool, Option, List, ℤ}

-- The TSRM context of a thread, which stands for a pmmpthread_ident_t.
abbrev pub Ident : Type 0
Ident = ℕ

-- A zend_string: where it lies, its bytes, and its flag IS_STR_PERMANENT.
pub record ZendString : Type 0 where
  pub addr : ℕ
  pub text : List ℕ
  pub permanent : Bool

pub data This : Type 0 where
  unbound : This
  thread_safe other : ℕ → This

-- One opcode of a closure: whether it is ZEND_BIND_STATIC, and whether it has ZEND_BIND_REF.
pub record Opline : Type 0 where
  pub bind_static : Bool
  pub bind_ref : Bool

-- `user` is ZEND_USER_FUNCTION, `fake` ZEND_ACC_FAKE_CLOSURE; `statics` tells whether the table of
-- static variables is there.
pub record Closure : Type 0 where
  pub addr : ℕ
  pub this : This
  pub user : Bool
  pub fake : Bool
  pub statics : Bool
  pub oplines : List Opline

-- A socket is invalid while `bsd_socket` is negative (`IS_INVALID_SOCKET`).
pub record Socket : Type 0 where
  pub bsd_socket : ℤ
  pub kind : ℕ
  pub error : ℕ
  pub blocking : ℕ

-- `streamed` tells whether `zstream` is defined.
pub data Object : Type 0 where
  enum_case : (class member : ZendString) → Object
  closure : Closure → Object
  thread_safe : ℕ → Object
  socket : (streamed : Bool) → Socket → Object
  other : ℕ → Object

-- Integers and doubles are their 64 bits, arrays and resources their addresses.
pub data Zval : Type 0 where
  undef null : Zval
  bool : Bool → Zval
  long : ℕ → Zval
  double : ℕ → Zval
  string : ZendString → Zval
  array : ℕ → Zval
  resource : ℕ → Zval
  object : Object → Zval

-- pmmpthread_storage and what extends it, one constructor for each pmmpthread_store_type
pub data Stored : Type 0 where
  closure_data : Closure → (this_obj : Option ℕ) → (owner : Ident) → Stored
  object_data : ℕ → Stored
  socket_data : Socket → Stored
  enum_data : (class_name member_name : ZendString) → Stored
  string_data : ZendString → (owner : Ident) → Stored

-- An element of a store's table.
pub data Storage : Type 0 where
  null : Storage
  bool : Bool → Storage
  long : ℕ → Storage
  double : ℕ → Storage
  string : ZendString → Storage
  ptr : Stored → Storage
