-- ===== src/Copy/Functions.antt =====
-- src/copy.c: each function is copied once for a thread; later calls give the copy that is there.
-- What is in a copy besides its opcodes' address and the functions declared in it is in Opcodes.
use ext_pmmpthread.Prelude.{ℕ, suc, ◌+◌, Bool, true, false, ◌&&◌, Option, none, some, if◌then◌else◌}
use ext_pmmpthread.Memory.{update}

-- zend_function, less the functions declared in it: `user` is its type, ZEND_ACC_IMMUTABLE and
-- ZEND_ACC_CLOSURE are flags, `counted` is whether op_array.refcount is there, and `arena` is
-- ZEND_ACC_ARENA_ALLOCATED.
pub record Head : Type 0 where
  pub addr : ℕ
  pub opcodes : ℕ
  pub user : Bool
  pub immutable : Bool
  pub closure : Bool
  pub counted : Bool
  pub arena : Bool

-- A function with its dynamic_func_defs.
mutual
  pub data Function : Type 0 where
    function : Head → Functions → Function

  pub data Functions : Type 0 where
    no_more : Functions
    more : Function → Functions → Functions

-- The tables `resolve` and `closure_base_op_arrays` of a thread, the copies by their addresses, the
-- references to each and to its name, and the next address that is not in use.
pub record Copies : Type 0 where
  pub resolve : ℕ → Option ℕ
  pub bases : ℕ → Option ℕ
  pub copies : ℕ → Option Head
  pub refs : ℕ → ℕ
  pub names : ℕ → ℕ
  pub next : ℕ

abbrev pub find_copy : Head → Copies → Option ℕ
find_copy h s = if h.closure then s.bases h.opcodes else s.resolve h.addr

abbrev pub has_refcount : Option Head → Bool
has_refcount none = false
has_refcount (some h) = h.user && h.counted

abbrev pub named_again : ℕ → Copies → Copies
named_again c s = record s { names = update s.names c (suc (s.names c)) }

unfoldable pub add_function_ref : ℕ → Copies → Copies
add_function_ref c s =
    if has_refcount (s.copies c)
    then named_again c (record s { refs = update s.refs c (suc (s.refs c)) })
    else named_again c s

-- The functions that are returned have their address first.
abbrev pub copy_internal_function : Head → Copies → ℕ × Copies
copy_internal_function h s = (
  s.next,
  record s {
    copies = update s.copies s.next (some (record h { addr = s.next; arena = true }));
    next = suc s.next;
  },
)

-- Up to the functions that are declared in it; opcodes in shared memory are not copied.
abbrev pub new_user_function : Head → Copies → ℕ × Copies
new_user_function h s = (
  s.next,
  record s {
    copies =
        update s.copies s.next (
          some (record h { addr = s.next; opcodes = if h.counted then suc s.next else h.opcodes }));
    refs = if h.counted then update s.refs s.next 1 else s.refs;
    names = update s.names s.next 1;
    next = 2 + s.next;
  },
)

-- A new copy is entered in the table for its kind; that of closures holds a reference.
unfoldable pub register : Head → ℕ × Copies → ℕ × Copies
unfolding add_function_ref
register h (c, s) =
    if h.closure
    then (c, add_function_ref c (record s { bases = update s.bases h.opcodes (some c) }))
    else (c, record s { resolve = update s.resolve h.addr (some c) })

abbrev pub found_again : ℕ → Copies → ℕ × Copies
found_again c s = (c, add_function_ref c s)

abbrev pub or_register : Head → (made : ℕ × Copies) → Copies → Option ℕ → ℕ × Copies
or_register h made s none = register h made
or_register h made s (some c) = found_again c s

-- `made` is the new copy, which is made where there is none. Immutable functions are shared.
unfoldable pub found_or_made : Head → (made : ℕ × Copies) → Copies → ℕ × Copies
found_or_made h made s = if h.immutable then (h.addr, s) else or_register h made s (find_copy h s)

-- A new copy, given the state after the functions declared in it are copied.
abbrev pub make_copy : Head → (with_defs : Copies) → Copies → ℕ × Copies
make_copy h with_defs s =
    if h.user
    then (s.next, if h.counted then with_defs else (new_user_function h s).1)
    else copy_internal_function h s

unfoldable mutual
  pub copy_function : Function → Copies → ℕ × Copies
  copy_function (function h fs) s =
      found_or_made h (make_copy h (copy_dynamic_func_defs fs (new_user_function h s).1) s) s

  pub copy_dynamic_func_defs : Functions → Copies → Copies
  copy_dynamic_func_defs no_more s = s
  copy_dynamic_func_defs (more f fs) s = copy_dynamic_func_defs fs (copy_function f s).1
