-- ===== src/Store/State.antt =====
-- src/store.c: the state of a store and of one connection to it, and the steps that its operations
-- share: coercion of keys, the modification counts, and the table of local properties.
use Prim.Native.String.{String}
use ext_pmmpthread.Prelude.{
  ℕ, suc, ◌%◌, ◌^◌, Bool, true, false, ◌&&◌, ◌||◌, Option, none, some, List, [], ◌∷◌, ◌==◌, same_ℤ,
  if◌then◌else◌,
}
use ext_pmmpthread.Zend.{ZendHash, invalid_idx}
use ext_pmmpthread.Zend.Keys.{Key}
use ext_pmmpthread.Zend.Buckets.{entries}
use ext_pmmpthread.Store.Types.{
  Ident, Object, Zval, Storage, closure_data, object_data, socket_data, string_data,
}
use ext_pmmpthread.Store.Values.{Thread, storage_is_cacheable, retain_in_local_cache}

-- An element of a table of local properties: an IS_INDIRECT zval, or a value.
pub data Local : Type 0 where
  indirect : Local
  cached : Zval → Local

-- The engine: the hash tables of shared and of local properties, ZEND_HANDLE_NUMERIC, and
-- `zval_get_string`.
pub record Engine : Type 1 where
  pub Z : ZendHash Storage
  pub L : ZendHash Local
  pub handle_numeric : String → Option ℕ
  pub get_string : Zval → String

-- The zval that names a member.
pub data Offset : Type 0 where
  string : String → Offset
  long : ℕ → Offset
  other : Zval → Offset

-- Modification counts are zend_longs, kept as their 64 bits.
abbrev pub mod_width : ℕ
mod_width = 2 ^ 64

unfoldable pub valid_local_cache_item : Local → Bool
valid_local_cache_item indirect = false
valid_local_cache_item (cached z) = true

-- Whether the local value still stands for what the table holds now.
unfoldable pub still_cached : Thread → Option Storage → Local → Bool
still_cached th (some (Storage.ptr (object_data o))) (cached (Zval.object (Object.thread_safe l))) =
    (o == l) || (th.object_valid o && th.ts_obj o == th.ts_obj l)
still_cached th (some (Storage.ptr (closure_data c this owner)))
      (cached (Zval.object (Object.closure l))) =
    c.addr == l.addr
still_cached th (some (Storage.ptr (socket_data s)))
      (cached (Zval.object (Object.socket streamed l))) =
    same_ℤ s.bsd_socket l.bsd_socket
still_cached th (some (Storage.ptr (string_data s owner))) (cached (Zval.string l)) =
    owner == th.ls && s.addr == l.addr
still_cached th _ _ = false

module _ (E : Engine) where
  -- pmmpthread_store_t
  pub record Store : Type 0 where
    pub hash : E.Z.Table
    pub first : ℕ
    pub last : ℕ
    pub modcount : ℕ

  -- A pmmpthread_zend_object_t: `properties` is `none` where `std.properties` is NULL.
  pub record Connection : Type 0 where
    pub properties : Option E.L.Table
    pub local_props_modcount : ℕ
    pub owner : Ident

  -- A store, and the connection through which it is used.
  pub record State : Type 0 where
    pub props : Store
    pub threaded : Connection

  unfoldable pub invalidate_bounds : Store → Store
  invalidate_bounds s = record s { first = invalid_idx; last = invalid_idx }

  unfoldable pub init : Store
  unfolding invalidate_bounds
  init = invalidate_bounds (record { hash = E.Z.init; first = 0; last = 0; modcount = 0 })

  -- The member, and whether a string was made for it.
  unfoldable pub coerce : Offset → Key × Bool
  coerce (Offset.string s) = elim (E.handle_numeric s) [
    | some n ↦ (Key.index n, false)
    | none ↦ (Key.name s, false)
  ]
  coerce (Offset.long n) = (Key.index n, false)
  coerce (Offset.other z) = (Key.name (E.get_string z), true)

  unfoldable pub bump_modcount : State → State
  bump_modcount st = record {
    props = record st.props { modcount = suc st.props.modcount % mod_width };
    threaded =
        if st.threaded.local_props_modcount == st.props.modcount
        then record st.threaded {
          local_props_modcount = suc st.threaded.local_props_modcount % mod_width;
        }
        else st.threaded;
  }

  abbrev pub bump_if : Bool → State → State
  bump_if true st = bump_modcount st
  bump_if false st = st

  unfoldable pub member_is_cacheable : Store → Key → Bool
  unfolding storage_is_cacheable
  member_is_cacheable s k = elim (E.Z.find s.hash k) [
    | none ↦ false
    | some z ↦ storage_is_cacheable z
  ]

  -- `zend_hash_del` on a table, whatever it returns.
  abbrev pub local_del : E.L.Table → Key → E.L.Table
  local_del t k = elim (E.L.del t k) [ none ↦ t | some t' ↦ t' ]

  -- The same on the local properties, if there are any.
  abbrev pub forget : Key → Connection → Connection
  forget k c = record c {
    properties = elim c.properties [ none ↦ none | some t ↦ some (local_del t k) ];
  }

  unfoldable pub sync_loop : Thread → Store → List (Key × Local) → E.L.Table → E.L.Table
  unfolding still_cached
  sync_loop th s [] t = t
  sync_loop th s ((k, l) ∷ es) t =
      sync_loop th s es (if still_cached th (E.Z.find s.hash k) l then t else local_del t k)

  unfoldable pub sync_local_properties : Thread → State → State
  unfolding sync_loop
  sync_local_properties th st =
      if st.threaded.local_props_modcount == st.props.modcount then st else record st {
        threaded = record st.threaded {
          properties = elim st.threaded.properties [
            | none ↦ none
            | some t ↦ some (sync_loop th st.props (entries (E.L.slots t)) t)
          ];
          local_props_modcount = st.props.modcount;
        };
      }

  -- The local table, made where there is none.
  unfoldable pub init_local_properties : Connection → E.L.Table
  init_local_properties c = elim c.properties [ none ↦ E.L.init | some t ↦ t ]

  unfoldable pub update_local_property : Key → Zval → Connection → Connection
  unfolding retain_in_local_cache init_local_properties
  update_local_property k z c =
      if retain_in_local_cache z
      then record c { properties = some (E.L.update (init_local_properties c) k (cached z)) }
      else c

  unfoldable pub update_shared_property : Key → Storage → Store → Store
  update_shared_property k z s = record s { hash = E.Z.update s.hash k z }
