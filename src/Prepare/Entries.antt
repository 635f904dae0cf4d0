-- ===== src/Prepare/Entries.antt =====
-- src/prepare.c: which class of a thread stands for a class of its creator. The late bindings of
-- properties, statics and constants are not called here, as when all classes are copied.
use Prim.Native.String.{String}
use text.Mathlib.Text.{◌==◌ as str_eq}
use ext_pmmpthread.Prelude.{
  ℕ, suc, Bool, not, ◌&&◌, ◌||◌, Option, none, some, List, [], ◌∷◌, if◌then◌else◌,
}
use ext_pmmpthread.Prepare.Tables.{Table, find}

-- zend_class_entry: its type ZEND_INTERNAL_CLASS, and the flags ZEND_ACC_PRELOADED, _ANON_CLASS,
-- _LINKED and _IMMUTABLE.
pub record ClassHead : Type 0 where
  pub addr : ℕ
  pub name : String
  pub internal : Bool
  pub preloaded : Bool
  pub anonymous : Bool
  pub linked : Bool
  pub immutable : Bool

-- A class with its parent, if it has one, and its interfaces.
mutual
  pub data Class : Type 0 where
    base : ClassHead → Classes → Class
    derived : ClassHead → Class → Classes → Class

  pub data Classes : Type 0 where
    no_more : Classes
    more : Class → Classes → Classes

-- A class of the thread: where it lies, its flags, and the classes that it inherits from.
pub record Entry : Type 0 where
  pub addr : ℕ
  pub anonymous : Bool
  pub linked : Bool
  pub immutable : Bool
  pub parent : Option ℕ
  pub interfaces : List (Option ℕ)

-- The thread's table of classes and the next address that is not in use.
pub record Loaded : Type 0 where
  pub class_table : Table Entry
  pub next : ℕ

-- The parent and the interfaces in the thread.
abbrev pub Inherited : Type 0
Inherited = Option ℕ × List (Option ℕ)

-- zend_hash_update_ptr
abbrev pub set_entry : String → Entry → Table Entry → Table Entry
set_entry n e [] = (n, e) ∷ []
set_entry n e ((m, d) ∷ rest) =
    let set = set_entry n e rest in if str_eq m n then (m, e) ∷ rest else (m, d) ∷ set

abbrev pub addr_of : Option Entry → Option ℕ
addr_of none = none
addr_of (some e) = some e.addr

-- An anonymous class that was not linked when it was copied, and is now.
abbrev pub is_rebound : Entry → ClassHead → Bool
is_rebound p h = (p.anonymous && not p.linked) && (h.anonymous && h.linked)

-- The parameter is zend_string_tolower.
module _ (lower : String → String) where
  abbrev pub key : ClassHead → String
  key h = lower h.name

  abbrev pub put : ClassHead → Entry → Loaded → Loaded
  put h e s = record s { class_table = set_entry (key h) e s.class_table }

  -- What a class that is not linked inherits is known by names only.
  abbrev pub inherited_or : ClassHead → (Loaded → Inherited × Loaded) → Loaded → Inherited × Loaded
  inherited_or h deps s = if h.linked then deps s else ((none, []), s)

  abbrev pub entry_of : ClassHead → (addr : ℕ) → Inherited → Entry
  entry_of h a (p, is) = record {
    addr = a;
    anonymous = h.anonymous;
    linked = h.linked;
    immutable = h.immutable;
    parent = p;
    interfaces = is;
  }

  -- The candidate itself is entered, and then what it inherits from. The source also enters the
  -- classes that the types of its properties name; these calls are left out.
  abbrev pub share_entry :
      ClassHead → Inherited → (Loaded → Inherited × Loaded) → Loaded → Option ℕ × Loaded
  share_entry h own deps s =
      (some h.addr, (inherited_or h deps (put h (entry_of h h.addr own) s)).1)

  -- A copy, which is entered after what it inherits from.
  abbrev pub copy_entry : ClassHead → (Loaded → Inherited × Loaded) → Loaded → Option ℕ × Loaded
  copy_entry h deps s =
      let (inherited, s') = inherited_or h deps (record s { next = suc s.next }) in
      (some s.next, put h (entry_of h s.next inherited) s')

  abbrev pub with_flags : ClassHead → Entry → Entry
  with_flags h p = record p { anonymous = h.anonymous; linked = h.linked; immutable = h.immutable }

  -- The entry keeps its address, and takes the candidate's flags first.
  abbrev pub complete_entry :
      ClassHead → Entry → (Loaded → Inherited × Loaded) → Loaded → Option ℕ × Loaded
  complete_entry h p deps s =
      let (inherited, s') = inherited_or h deps (put h (with_flags h p) s) in
      (some p.addr, put h (entry_of h p.addr inherited) s')

  abbrev pub new_entry :
      ClassHead → Inherited → (Loaded → Inherited × Loaded) → Loaded → Option ℕ × Loaded
  new_entry h own deps s = if h.immutable then share_entry h own deps s else copy_entry h deps s

  abbrev pub found_entry :
      ClassHead
      → Inherited
      → (Loaded → Inherited × Loaded)
      → Loaded
      → Option Entry
      → Option ℕ × Loaded
  found_entry h own deps s none = new_entry h own deps s
  found_entry h own deps s (some p) =
      if is_rebound p h
      then (if p.immutable then new_entry h own deps s else complete_entry h p deps s)
      else (some p.addr, s)

  unfoldable pub enter :
      ClassHead → Inherited → (Loaded → Inherited × Loaded) → Loaded → Option ℕ × Loaded
  enter h own deps s =
      if h.internal || h.preloaded
      then (addr_of (find (key h) s.class_table), s)
      else found_entry h own deps s (find (key h) s.class_table)

  abbrev pub class_addr : Class → ℕ
  class_addr (base h is) = h.addr
  class_addr (derived h p is) = h.addr

  abbrev pub class_addrs : Classes → List (Option ℕ)
  class_addrs no_more = []
  class_addrs (more c cs) = some (class_addr c) ∷ class_addrs cs

  unfoldable mutual
    pub create_entry : Class → Loaded → Option ℕ × Loaded
    create_entry (base h is) s =
        enter h (none, class_addrs is)
          (λ t. let (rest, t') = create_entries is t in ((none, rest), t')) s
    create_entry (derived h p is) s =
        enter h (some (class_addr p), class_addrs is)
          (λ t.
            let (a, t1) = create_entry p t in
            let (rest, t2) = create_entries is t1 in ((a, rest), t2))
          s

    pub create_entries : Classes → Loaded → List (Option ℕ) × Loaded
    create_entries no_more s = ([], s)
    create_entries (more c cs) s =
        let (a, s1) = create_entry c s in let (rest, s2) = create_entries cs s1 in (a ∷ rest, s2)
