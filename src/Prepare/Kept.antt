-- ===== src/Prepare/Kept.antt =====
-- The classes of a thread are kept when a class is copied by the recursion of src/prepare.c.
use Prim.Native.String.{String}
use text.Mathlib.Text.{◌==◌ as str_eq}
use text.Mathlib.TextEquality.{eq_iff}
use mathlib.Core.Option.{none-ne-some}
use ext_pmmpthread.Prelude.{
  ℕ, suc, ◌≡◌, refl, sym, ap, ◌∙◌, subst, true, false, ◌||◌, Option, none, some, [], ◌∷◌,
  if◌then◌else◌, Bool-cases, Option-cases, inl, inr, arith,
}
use ext_pmmpthread.Prepare.Tables.{Table, find}
use ext_pmmpthread.Prepare.Entries.{
  ClassHead, Class, base, derived, Classes, no_more, more, Entry, Loaded, Inherited, set_entry,
  addr_of, is_rebound, key, put, inherited_or, entry_of, share_entry, copy_entry, complete_entry,
  new_entry, found_entry, enter, class_addr, class_addrs, create_entry, create_entries,
}

pub find-set_entry : (n : String) (e : Entry) (t : Table Entry) → find n (set_entry n e t) ≡ some e
find-set_entry n e [] = ap (λ b. if b then some e else none) ((eq_iff n n).1 refl)
find-set_entry n e ((m, d) ∷ t) = elim (Bool-cases (str_eq m n)) [
  | inl q ↦ ground (arith, q)
  | inr q ↦ ground (arith, q, find-set_entry n e t)
]

pub find-set_entry_other :
    (n k : String) (e : Entry) (t : Table Entry)
    → str_eq n k ≡ false
    → find k (set_entry n e t) ≡ find k t
find-set_entry_other n k e [] h = ap (λ b. if b then some e else none) h
find-set_entry_other n k e ((m, d) ∷ t) h = elim (Bool-cases (str_eq m n)) [
  | inl q ↦ ground (arith, q, eq_iff m n)
  | inr q ↦ ground (arith, q, find-set_entry_other n k e t h)
]

abbrev pub class_head : Class → ClassHead
class_head (base h is) = h
class_head (derived h p is) = h

-- No class here is anonymous.
unfoldable mutual
  pub IsNamed : Class → Type 0
  IsNamed (base h is) = (h.anonymous ≡ false) × AllNamed is
  IsNamed (derived h p is) = (h.anonymous ≡ false) × (IsNamed p × AllNamed is)

  pub AllNamed : Classes → Type 0
  AllNamed no_more = Unit
  AllNamed (more c cs) = IsNamed c × AllNamed cs

module _ (lower : String → String) where
  abbrev pub Keeps : (Loaded → Inherited × Loaded) → Type 0
  Keeps deps =
      (s : Loaded) (n : String) (e : Entry)
      → find n s.class_table ≡ some e
      → find n (deps s).1.class_table ≡ some e

  never_rebound : (p : Entry) (h : ClassHead) → h.anonymous ≡ false → is_rebound p h ≡ false
  never_rebound p h named = ground (arith, named)

  -- The ways in which a named class of the thread is found or made.
  pub named-cases :
      (P : Option ℕ × Loaded → Type 0) (h : ClassHead) (own : Inherited)
      (deps : Loaded → Inherited × Loaded) (s : Loaded)
      → h.anonymous ≡ false
      → (h.internal || h.preloaded ≡ true → P (addr_of (find (key lower h) s.class_table), s))
      → ((p : Entry) → find (key lower h) s.class_table ≡ some p → P (some p.addr, s))
      → (find (key lower h) s.class_table ≡ none → P (share_entry lower h own deps s))
      → (find (key lower h) s.class_table ≡ none → P (copy_entry lower h deps s))
      → P (enter lower h own deps s)
  unfolding enter
  named-cases P h own deps s named looked found shared copied =
      let o = find (key lower h) s.class_table in
      let search : P (found_entry lower h own deps s o) = elim (Option-cases o) [
        | inl gone ↦
            subst (λ q. P (found_entry lower h own deps s q)) (sym gone)
              (elim (Bool-cases h.immutable) [
                | inl e ↦
                    subst
                      (λ b.
                        P (if b then share_entry lower h own deps s else copy_entry lower h deps s))
                      (sym e) (shared gone)
                | inr e ↦
                    subst
                      (λ b.
                        P (if b then share_entry lower h own deps s else copy_entry lower h deps s))
                      (sym e) (copied gone)
              ])
        | inr (p, there) ↦
            subst (λ q. P (found_entry lower h own deps s q)) (sym there)
              (subst
                (λ b. P (
                  if b
                  then (if p.immutable
                      then new_entry lower h own deps s
                      else complete_entry lower h p deps s)
                  else (some p.addr, s)))
                (sym (never_rebound p h named)) (found p there))
      ] in
      elim (Bool-cases (h.internal || h.preloaded)) [
        | inl e ↦
            subst (λ b. P (if b then (addr_of o, s) else found_entry lower h own deps s o)) (sym e)
              (looked e)
        | inr e ↦
            subst (λ b. P (if b then (addr_of o, s) else found_entry lower h own deps s o)) (sym e)
              search
      ]

  pub deps_or-Keeps :
      (h : ClassHead) (deps : Loaded → Inherited × Loaded)
      → Keeps deps
      → Keeps (inherited_or lower h deps)
  deps_or-Keeps h deps kept s n e there = elim (Bool-cases h.linked) [
    | inl l ↦
        subst (λ b. find n (if b then deps s else ((none, []), s)).1.class_table ≡ some e) (sym l)
          (kept s n e there)
    | inr l ↦
        subst (λ b. find n (if b then deps s else ((none, []), s)).1.class_table ≡ some e) (sym l)
          there
  ]

  put-keeps :
      (h : ClassHead) (d : Entry) (s t : Loaded) (n : String) (e : Entry)
      → find (key lower h) s.class_table ≡ none
      → find n s.class_table ≡ some e
      → find n t.class_table ≡ some e
      → find n (put lower h d t).class_table ≡ some e
  put-keeps h d s t n e gone there after = elim (Bool-cases (str_eq (key lower h) n)) [
    | inl q ↦
        let same : find (key lower h) s.class_table ≡ some e =
          subst (λ m. find m s.class_table ≡ some e) (sym ((eq_iff (key lower h) n).0 q)) there in
        absurd (none-ne-some e (sym gone ∙ same))
    | inr q ↦ find-set_entry_other (key lower h) n d t.class_table q ∙ after
  ]

  enter-Keeps :
      (h : ClassHead) (own : Inherited) (deps : Loaded → Inherited × Loaded)
      → h.anonymous ≡ false
      → Keeps deps
      → (s : Loaded) (n : String) (e : Entry) → find n s.class_table ≡ some e
      → find n (enter lower h own deps s).1.class_table ≡ some e
  enter-Keeps h own deps named kept s n e there =
      let entered = entry_of lower h h.addr own in
      let s' = record s { next = suc s.next } in
      let copied = entry_of lower h s.next (inherited_or lower h deps s').0 in
      named-cases (λ r. find n r.1.class_table ≡ some e) h own deps s named (λ _. there)
        (λ _ _. there)
        (λ gone.
          deps_or-Keeps h deps kept (put lower h entered s) n e
            (put-keeps h entered s s n e gone there there))
        (λ gone.
          put-keeps h copied s (inherited_or lower h deps s').1 n e gone there
            (deps_or-Keeps h deps kept s' n e there))

  mutual
    unfolding create_entry IsNamed AllNamed

    pub create_entry-keeps :
        (c : Class)
        → IsNamed c
        → (s : Loaded) (n : String) (e : Entry) → find n s.class_table ≡ some e
        → find n (create_entry lower c s).1.class_table ≡ some e
    create_entry-keeps (base h is) (named, all) s n e there =
        enter-Keeps h (none, class_addrs lower is)
          (λ t. ((none, (create_entries lower is t).0), (create_entries lower is t).1)) named
          (λ t m d q. create_entries-keeps is all t m d q) s n e there
    create_entry-keeps (derived h p is) (named, (up, all)) s n e there =
        enter-Keeps h (some (class_addr lower p), class_addrs lower is)
          (λ t.
            let t1 = (create_entry lower p t).1 in
            (
              ((create_entry lower p t).0, (create_entries lower is t1).0),
              (create_entries lower is t1).1,
            ))
          named
          (λ t m d q.
            create_entries-keeps is all (create_entry lower p t).1 m d
              (create_entry-keeps p up t m d q))
          s n e there

    pub create_entries-keeps :
        (cs : Classes)
        → AllNamed cs
        → (s : Loaded) (n : String) (e : Entry) → find n s.class_table ≡ some e
        → find n (create_entries lower cs s).1.class_table ≡ some e
    create_entries-keeps no_more all s n e there = there
    create_entries-keeps (more c cs) (named, all) s n e there =
        create_entries-keeps cs all (create_entry lower c s).1 n e
          (create_entry-keeps c named s n e there)
