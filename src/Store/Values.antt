-- ===== src/Store/Values.antt =====
-- How src/store.c turns values into what a store can hold, and back on any thread.
use ext_pmmpthread.Prelude.{
  ℕ, suc, Bool, true, false, not, ◌&&◌, ◌||◌, Option, none, some, List, [], ◌∷◌, ◌==◌,
  if◌then◌else◌,
}
use ext_pmmpthread.Store.Types.{
  Ident, ZendString, This, Opline, Closure, Object, Zval, Stored, Storage, closure_data,
  object_data, socket_data, enum_data, string_data,
}

-- What the code of a store calls and src/store.c does not define: the current thread's context, the
-- address at which the next string is made, and `pmmpthread_copy_closure`,
-- `pmmpthread_object_connect` and the lookup of an enum case, which may fail; and what is known of
-- the objects that are connected.
pub record Thread : Type 0 where
  pub ls : Ident
  pub fresh : ℕ
  pub copy_closure : Ident → Closure → Option Object
  pub object_connect : ℕ → Option ℕ
  -- pmmpthread_globals_object_valid, and the shared object (`ts_obj`) of a connection
  pub object_valid : ℕ → Bool
  pub ts_obj : ℕ → ℕ
  pub enum_reference : (class_name member_name : ZendString) → Option Object

-- The thread once it has made a string.
abbrev pub again : Thread → Thread
again th = record th { fresh = suc th.fresh }

unfoldable pub storage_is_cacheable : Storage → Bool
storage_is_cacheable (Storage.string s) = true
storage_is_cacheable (Storage.ptr (object_data o)) = true
storage_is_cacheable (Storage.ptr (closure_data c this owner)) = true
storage_is_cacheable (Storage.ptr (socket_data s)) = true
storage_is_cacheable (Storage.ptr (string_data s owner)) = true
storage_is_cacheable _ = false

unfoldable pub retain_in_local_cache : Zval → Bool
retain_in_local_cache (Zval.object (Object.thread_safe o)) = true
retain_in_local_cache (Zval.object (Object.closure c)) = true
retain_in_local_cache (Zval.object (Object.socket streamed s)) = true
retain_in_local_cache (Zval.string s) = true
retain_in_local_cache _ = false

-- zend_string_init: the same bytes at a new address
abbrev pub string_init : ℕ → ZendString → ZendString
string_init fresh s = record { addr = fresh; text = s.text; permanent = false }

unfoldable pub save_string : ℕ → ZendString → ZendString
save_string fresh s = if s.permanent then s else string_init fresh s

unfoldable pub restore_string : ℕ → ZendString → ZendString
restore_string fresh s = if s.permanent then s else string_init fresh s

abbrev pub binds_ref : List Opline → Bool
binds_ref [] = false
binds_ref (o ∷ os) = (o.bind_static && o.bind_ref) || binds_ref os

abbrev pub this_safe : This → Bool
this_safe This.unbound = true
this_safe (This.thread_safe o) = true
this_safe (This.other o) = false

unfoldable pub closure_thread_safe : Closure → Bool
closure_thread_safe c =
    if not (this_safe c.this)
    then false
    else if c.user && not c.fake && c.statics && binds_ref c.oplines
    then false
    else true

abbrev pub this_object : This → Option ℕ
this_object (This.thread_safe o) = some o
this_object _ = none

-- Memory for the storage is taken to be there. That a valid socket is counted in the registry of
-- shared sockets is left out.
unfoldable pub create : Thread → Ident → Zval → Option Stored
unfolding save_string closure_thread_safe
create th source (Zval.string s) = some (string_data s source)
create th source (Zval.object (Object.enum_case class member)) =
    some (enum_data (save_string th.fresh class) (save_string th.fresh member))
create th source (Zval.object (Object.closure c)) =
    if closure_thread_safe c then some (closure_data c (this_object c.this) source) else none
create th source (Zval.object (Object.thread_safe o)) = some (object_data o)
create th source (Zval.object (Object.socket streamed s)) =
    if streamed then none else some (socket_data s)
create th source _ = none

abbrev pub stored : Option Stored → Option Storage
stored none = none
stored (some s) = some (Storage.ptr s)

unfoldable pub save_zval : Thread → Ident → Zval → Option Storage
unfolding create
save_zval th source Zval.null = some Storage.null
save_zval th source (Zval.bool b) = some (Storage.bool b)
save_zval th source (Zval.long n) = some (Storage.long n)
save_zval th source (Zval.double d) = some (Storage.double d)
save_zval th source (Zval.string s) =
    if s.permanent then some (Storage.string s) else stored (create th source (Zval.string s))
save_zval th source z = stored (create th source z)

-- The value, or NULL where the conversion fails, and whether it succeeded.
pub record Converted : Type 0 where
  pub value : Zval
  pub success : Bool

abbrev pub converted : Option Object → Converted
converted none = record { value = Zval.null; success = false }
converted (some o) = record { value = Zval.object o; success = true }

abbrev pub connected : Option ℕ → Option Object
connected none = none
connected (some o) = some (Object.thread_safe o)

unfoldable pub convert : Thread → Stored → Converted
unfolding restore_string
convert th (string_data s owner) = record {
  value = Zval.string (if owner == th.ls then s else restore_string th.fresh s);
  success = true;
}
convert th (closure_data c this owner) = converted (th.copy_closure owner c)
convert th (object_data o) = converted (connected (th.object_connect o))
convert th (socket_data s) = record { value = Zval.object (Object.socket false s); success = true }
convert th (enum_data class member) = converted (th.enum_reference class member)

unfoldable pub restore_zval : Thread → Storage → Zval
unfolding convert
restore_zval th Storage.null = Zval.null
restore_zval th (Storage.bool b) = Zval.bool b
restore_zval th (Storage.long n) = Zval.long n
restore_zval th (Storage.double d) = Zval.double d
restore_zval th (Storage.string s) = Zval.string (restore_string th.fresh s)
restore_zval th (Storage.ptr s) = (convert th s).value

-- A copy for a table whose object another thread may own.
unfoldable pub hard_copy_storage : ℕ → Storage → Storage
unfolding save_string
hard_copy_storage fresh (Storage.ptr (string_data s owner)) = Storage.string (save_string fresh s)
hard_copy_storage fresh (Storage.string s) = Storage.string (save_string fresh s)
hard_copy_storage fresh z = z
