-- ===== src/Store/RoundTrip.antt =====
-- What becomes of a value that one thread stores and another reads.
use ext_pmmpthread.Prelude.{
  ℕ, ◌≡◌, refl, subst, Bool, true, false, not, some, ◌==◌, ==_iff, if◌then◌else◌, is_some, arith,
}
use ext_pmmpthread.Store.Types.{Ident, ZendString, Object, Zval, Storage, enum_data, string_data}
use ext_pmmpthread.Store.Values.{
  Thread, save_string, restore_string, create, save_zval, converted, connected, convert,
  restore_zval, closure_thread_safe,
}

-- The values that a store can hold.
abbrev pub storable : Zval → Bool
storable Zval.null = true
storable (Zval.bool b) = true
storable (Zval.long n) = true
storable (Zval.double d) = true
storable (Zval.string s) = true
storable (Zval.object (Object.thread_safe o)) = true
storable (Zval.object (Object.enum_case c m)) = true
storable (Zval.object (Object.closure c)) = closure_thread_safe c
storable (Zval.object (Object.socket streamed s)) = not streamed
storable _ = false

-- A string keeps its bytes; it is the same string where the thread that stored it reads it, or where
-- it is permanent.
pub record SameText (th : Thread) (source : Ident) (s t : ZendString) : Type 0 where
  pub text : t.text ≡ s.text
  pub own : source ≡ th.ls → t ≡ s
  pub permanent : s.permanent ≡ true → t ≡ s

-- What reading gives for a value that `source` stored.
abbrev pub Restored : Thread → Ident → Zval → Zval → Type 0
Restored th source (Zval.string s) w =
    (t : ZendString) × (w ≡ Zval.string t) × SameText th source s t
Restored th source (Zval.object (Object.thread_safe o)) w =
    w ≡ (converted (connected (th.object_connect o))).value
Restored th source (Zval.object (Object.closure c)) w =
    w ≡ (converted (th.copy_closure source c)).value
Restored th source (Zval.object (Object.socket streamed s)) w =
    w ≡ Zval.object (Object.socket false s)
Restored th source (Zval.object (Object.enum_case c m)) w =
    (d : ZendString) × (n : ZendString) × (d.text ≡ c.text)
    × (n.text ≡ m.text)
    × (w ≡ (converted (th.enum_reference d n)).value)
Restored th source z w = w ≡ z

save_string-text : (fresh : ℕ) (s : ZendString) → (save_string fresh s).text ≡ s.text
unfolding save_string
save_string-text fresh s = ground arith

string_case :
    (th reader : Thread) (source : Ident) (s : ZendString) (stor : Storage) (b : Bool)
    → s.permanent ≡ b
    → (if b then some (Storage.string s) else some (Storage.ptr (string_data s source))) ≡ some stor
    → Restored reader source (Zval.string s) (restore_zval reader stor)
unfolding restore_zval convert restore_string
string_case th reader source s stor true p h =
    let e : Storage.string s ≡ stor = ground (arith, h) in
    subst (λ z. Restored reader source (Zval.string s) (restore_zval reader z)) e
      (s, rw p refl, record { text = refl; own = λ _. refl; permanent = λ _. refl })
string_case th reader source s stor false p h =
    let e : Storage.ptr (string_data s source) ≡ stor = ground (arith, h) in
    subst (λ z. Restored reader source (Zval.string s) (restore_zval reader z)) e
      (
        (if source == reader.ls then s else restore_string reader.fresh s),
        refl,
        record {
          text = ground (arith, p);
          own = λ o. ground (arith, ==_iff source reader.ls);
          permanent = λ q. ground (arith, p);
        },
      )

-- A value that is stored is one that a store can hold, and reading it on any thread gives it back:
-- numbers, Booleans and NULL themselves, a string with its bytes, an enum case by the names of its
-- class and its case, a socket with its descriptor, valid or not, and its state, a closure as a copy and an object as a
-- connection, or NULL where these cannot be made.
pub restore-save :
    (th reader : Thread) (source : Ident) (z : Zval) (stor : Storage)
    → save_zval th source z ≡ some stor
    → (storable z ≡ true) × Restored reader source z (restore_zval reader stor)
unfolding save_zval restore_zval create convert restore_string save_string
restore-save th reader source Zval.undef stor h = ground arith
restore-save th reader source Zval.null stor h = ground arith
restore-save th reader source (Zval.bool b) stor h = ground arith
restore-save th reader source (Zval.long n) stor h = ground arith
restore-save th reader source (Zval.double d) stor h = ground arith
restore-save th reader source (Zval.string s) stor h =
    (refl, string_case th reader source s stor s.permanent refl h)
restore-save th reader source (Zval.array a) stor h = ground arith
restore-save th reader source (Zval.resource r) stor h = ground arith
restore-save th reader source (Zval.object (Object.thread_safe o)) stor h = ground arith
restore-save th reader source (Zval.object (Object.enum_case c m)) stor h =
    let e : Storage.ptr (enum_data (save_string th.fresh c) (save_string th.fresh m)) ≡ stor =
      ground (arith, h) in
    (
      refl,
      subst
          (λ z. Restored reader source (Zval.object (Object.enum_case c m)) (restore_zval reader z))
          e
          (
            save_string th.fresh c,
            save_string th.fresh m,
            save_string-text th.fresh c,
            save_string-text th.fresh m,
            refl,
          ),
    )
restore-save th reader source (Zval.object (Object.closure c)) stor h = ground arith
restore-save th reader source (Zval.object (Object.socket streamed s)) stor h = ground arith
restore-save th reader source (Zval.object (Object.other o)) stor h = ground arith

-- A store takes exactly the values that it can hold: NULL, numbers, Booleans, strings, enum cases,
-- thread-safe objects, closures that are thread-safe and sockets without a stream.
pub save-storable :
    (th : Thread) (source : Ident) (z : Zval) → is_some (save_zval th source z) ≡ storable z
unfolding save_zval create
save-storable th source Zval.undef = refl
save-storable th source Zval.null = refl
save-storable th source (Zval.bool b) = refl
save-storable th source (Zval.long n) = refl
save-storable th source (Zval.double d) = refl
save-storable th source (Zval.string s) = ground arith
save-storable th source (Zval.array a) = refl
save-storable th source (Zval.resource r) = refl
save-storable th source (Zval.object (Object.thread_safe o)) = refl
save-storable th source (Zval.object (Object.enum_case c m)) = refl
save-storable th source (Zval.object (Object.closure c)) = ground arith
save-storable th source (Zval.object (Object.socket streamed s)) = ground arith
save-storable th source (Zval.object (Object.other o)) = refl
