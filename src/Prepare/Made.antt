-- ===== src/Prepare/Made.antt =====
-- How src/prepare.c makes a class of the thread that is missing.
use Prim.Native.String.{String}
use ext_pmmpthread.Prelude.{
  ℕ, suc, ◌≡◌, sym, ap, ◌∙◌, subst, true, false, ◌||◌, ◌⊎◌, Option, none, some, [], if◌then◌else◌,
  Bool-cases, inl, inr,
}
use ext_pmmpthread.Prepare.Tables.{find}
use ext_pmmpthread.Prepare.Entries.{
  ClassHead, Entry, Loaded, Inherited, addr_of, is_rebound, key, put, entry_of, share_entry,
  copy_entry, with_flags, complete_entry, new_entry, found_entry, enter,
}

-- A class that is not built in and not preloaded.
abbrev pub IsUserClass : ClassHead → Type 0
IsUserClass h = h.internal || h.preloaded ≡ false

module _ (lower : String → String) where
  -- The thread has no class of the name, or has an anonymous one that was not linked yet.
  abbrev pub IsMissing : ClassHead → Loaded → Type 0
  IsMissing h s =
      (find (key lower h) s.class_table ≡ none)
      ⊎ ((q : Entry) × ((find (key lower h) s.class_table ≡ some q) × (is_rebound q h ≡ true)))

  abbrev pub MadeFrom : ClassHead → (Loaded → Inherited × Loaded) → Option ℕ × Loaded → Type 0
  MadeFrom h deps r =
      (a : ℕ) × ((t : Loaded) × (r
          ≡ (some a, put lower h (entry_of lower h a (deps t).0) (deps t).1)))

  copy-MadeFrom :
      (h : ClassHead) (own : Inherited) (deps : Loaded → Inherited × Loaded) (s : Loaded)
      → h.linked ≡ true
      → h.immutable ≡ false
      → MadeFrom h deps (new_entry lower h own deps s)
  copy-MadeFrom h own deps s linked mutable =
      let s' = record s { next = suc s.next } in
      let made : Inherited × Loaded → Option ℕ × Loaded =
        λ r. (some s.next, put lower h (entry_of lower h s.next r.0) r.1) in
      (
        s.next,
        (
          s',
          ap (λ b. if b then share_entry lower h own deps s else copy_entry lower h deps s) mutable
              ∙ ap (λ b. made (if b then deps s' else ((none, []), s'))) linked,
        ),
      )

  complete-MadeFrom :
      (h : ClassHead) (q : Entry) (deps : Loaded → Inherited × Loaded) (s : Loaded)
      → h.linked ≡ true
      → MadeFrom h deps (complete_entry lower h q deps s)
  complete-MadeFrom h q deps s linked =
      let s' = put lower h (with_flags lower h q) s in
      let made : Inherited × Loaded → Option ℕ × Loaded =
        λ r. (some q.addr, put lower h (entry_of lower h q.addr r.0) r.1) in
      (q.addr, (s', ap (λ b. made (if b then deps s' else ((none, []), s'))) linked))

  pub enter-MadeFrom :
      (h : ClassHead) (own : Inherited) (deps : Loaded → Inherited × Loaded) (s : Loaded)
      → IsUserClass h
      → h.linked ≡ true
      → h.immutable ≡ false
      → IsMissing h s
      → MadeFrom h deps (enter lower h own deps s)
  unfolding enter
  enter-MadeFrom h own deps s user linked mutable missing =
      let o = find (key lower h) s.class_table in
      let fresh = copy-MadeFrom h own deps s linked mutable in
      let search : MadeFrom h deps (found_entry lower h own deps s o) = elim missing [
        | inl gone ↦
            subst (λ q. MadeFrom h deps (found_entry lower h own deps s q)) (sym gone) fresh
        | inr (q, (there, again)) ↦
            subst (λ q. MadeFrom h deps (found_entry lower h own deps s q)) (sym there)
              (subst
                (λ b. MadeFrom h deps (
                  if b
                  then (if q.immutable
                      then new_entry lower h own deps s
                      else complete_entry lower h q deps s)
                  else (some q.addr, s)))
                (sym again)
                (elim (Bool-cases q.immutable) [
                  | inl e ↦
                      subst
                        (λ b. MadeFrom h deps (
                          if b
                          then new_entry lower h own deps s
                          else complete_entry lower h q deps s))
                        (sym e) fresh
                  | inr e ↦
                      subst
                        (λ b. MadeFrom h deps (
                          if b
                          then new_entry lower h own deps s
                          else complete_entry lower h q deps s))
                        (sym e) (complete-MadeFrom h q deps s linked)
                ]))
      ] in
      subst (λ b. MadeFrom h deps (if b then (addr_of o, s) else found_entry lower h own deps s o))
        (sym user) search
