-- ===== src/Prepare/Hierarchy.antt =====
-- The parent of a copied class, by the recursion of src/prepare.c.
use Prim.Native.String.{String}
use text.Mathlib.Text.{◌==◌ as str_eq}
use ext_pmmpthread.Prelude.{
  ℕ, suc, ◌≡◌, refl, sym, ◌∙◌, subst, true, false, Option, none, some, arith,
}
use ext_pmmpthread.Prepare.Tables.{find}
use ext_pmmpthread.Prepare.Entries.{
  ClassHead, Class, base, derived, Classes, Entry, Loaded, Inherited, key, put, inherited_or,
  entry_of, enter, class_addr, class_addrs, create_entry, create_entries,
}
use ext_pmmpthread.Prepare.Made.{IsUserClass, IsMissing, enter-MadeFrom}
use ext_pmmpthread.Prepare.Kept.{
  find-set_entry, find-set_entry_other, class_head, IsNamed, AllNamed, Keeps, named-cases,
  deps_or-Keeps, create_entry-keeps, create_entries-keeps,
}

module _ (lower : String → String) where
  -- The class that is returned is the one that the thread has under the candidate's name.
  abbrev pub IsEntered : ClassHead → Option ℕ × Loaded → Type 0
  IsEntered h (a, s) =
      (e : Entry) × ((a ≡ some e.addr) × (find (key lower h) s.class_table ≡ some e))

  enter-IsEntered :
      (h : ClassHead) (own : Inherited) (deps : Loaded → Inherited × Loaded) (s : Loaded)
      → h.anonymous ≡ false
      → IsUserClass h
      → Keeps lower deps
      → IsEntered h (enter lower h own deps s)
  enter-IsEntered h own deps s named user kept =
      let entered = entry_of lower h h.addr own in
      let (inherited, s') = inherited_or lower h deps (record s { next = suc s.next }) in
      let copied = entry_of lower h s.next inherited in
      named-cases lower (IsEntered h) h own deps s named (λ e. ground (arith, e, user))
        (λ p there. (p, (refl, there)))
        (λ gone. (
          entered,
          (
            refl,
            deps_or-Keeps lower h deps kept (put lower h entered s) (key lower h) entered
                (find-set_entry (key lower h) entered s.class_table),
          ),
        ))
        (λ gone. (copied, (refl, find-set_entry (key lower h) copied s'.class_table)))

  deps_of : Class → Loaded → Inherited × Loaded
  deps_of (base h is) t = ((none, (create_entries lower is t).0), (create_entries lower is t).1)
  deps_of (derived h p is) t =
      let (a, t1) = create_entry lower p t in
      let (rest, t2) = create_entries lower is t1 in ((a, rest), t2)

  create_entry-IsEntered :
      (c : Class) (s : Loaded)
      → IsNamed c
      → IsUserClass (class_head c)
      → IsEntered (class_head c) (create_entry lower c s)
  unfolding create_entry deps_of IsNamed
  create_entry-IsEntered (base h is) s (named, all) user =
      enter-IsEntered h (none, class_addrs lower is) (deps_of (base h is)) s named user
        (λ t m d q. create_entries-keeps lower is all t m d q)
  create_entry-IsEntered (derived h p is) s (named, (up, all)) user =
      enter-IsEntered h (some (class_addr lower p), class_addrs lower is) (deps_of (derived h p is))
        s named user
        (λ t m d q.
          create_entries-keeps lower is all (create_entry lower p t).1 m d
            (create_entry-keeps lower p up t m d q))

  -- The thread's class `e` was made, and its parent is the class that the thread has for `p`.
  abbrev pub IsDerived : ClassHead → ClassHead → Option ℕ × Loaded → Type 0
  IsDerived h p (a, s) =
      (e : Entry) × ((ep : Entry) × ((a ≡ some e.addr)
          × ((find (key lower h) s.class_table ≡ some e)
              × ((e.parent ≡ some ep.addr) × (find (key lower p) s.class_table ≡ some ep)))))

  -- A copied class inherits from the thread's own classes: when a class that is linked is copied, or an
  -- anonymous one is completed that was not linked before, the thread has it under its name and is
  -- given it, and the parent of the copy is the class that the thread has under the parent's name,
  -- whether that was there or had to be copied. The class is not immutable; neither it nor its
  -- parent is built in or preloaded; they differ in their names; what it inherits from is not
  -- anonymous.
  pub create_entry_lem :
      (h : ClassHead) (p : Class) (is : Classes) (s : Loaded)
      → IsNamed p
      → AllNamed is
      → IsUserClass h
      → IsUserClass (class_head p)
      → h.linked ≡ true
      → h.immutable ≡ false
      → str_eq (key lower h) (key lower (class_head p)) ≡ false
      → IsMissing lower h s
      → IsDerived h (class_head p) (create_entry lower (derived h p is) s)
  unfolding create_entry deps_of
  create_entry_lem h p is s up all user user_p linked mutable differ missing =
      let deps = deps_of (derived h p is) in
      let (a, (t, made)) =
        enter-MadeFrom lower h (some (class_addr lower p), class_addrs lower is) deps s user linked
          mutable missing in
      let (ep, (result, there)) = create_entry-IsEntered p t up user_p in
      let t1 = (create_entry lower p t).1 in
      let e = entry_of lower h a (deps t).0 in
      let later = (deps t).1.class_table in
      subst (IsDerived h (class_head p)) (sym made) (
        e,
        (
          ep,
          (
            refl,
            (
              find-set_entry (key lower h) e later,
              (
                result,
                find-set_entry_other (key lower h) (key lower (class_head p)) e later differ
                    ∙ create_entries-keeps lower is all t1 (key lower (class_head p)) ep there,
              ),
            ),
          ),
        ),
      )
