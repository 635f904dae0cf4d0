-- ===== src/Copy/Once.antt =====
-- A function is copied once, by the tables of src/copy.c.
use ext_pmmpthread.Prelude.{
  ℕ, ◌≡◌, ◌≢◌, refl, sym, ap, ◌∙◌, subst, true, false, none, some, if◌then◌else◌, Bool-cases,
  Option-cases, inl, inr, arith,
}
use ext_pmmpthread.Copy.Functions.{
  Head, Function, function, Functions, no_more, more, Copies, find_copy, has_refcount,
  add_function_ref, new_user_function, register, or_register, found_or_made, make_copy,
  copy_function, copy_dynamic_func_defs,
}

add_function_ref-find :
    (h : Head) (c : ℕ) (s : Copies) → find_copy h (add_function_ref c s) ≡ find_copy h s
unfolding add_function_ref
add_function_ref-find h c s = elim (Bool-cases (has_refcount (s.copies c))) [
  | inl e ↦ rw e refl
  | inr e ↦ rw e refl
]

register-find : (h : Head) (c : ℕ) (s : Copies) → find_copy h (register h (c, s)).1 ≡ some c
unfolding register add_function_ref
register-find h c s = ground arith

register-first : (h : Head) (c : ℕ) (s : Copies) → (register h (c, s)).0 ≡ c
unfolding register
register-first h c s = ground arith

-- Two functions that have different places in the tables.
abbrev IsApart : Head → Head → Type 0
IsApart h k =
    (h.closure ≡ true → k.closure ≡ true → h.opcodes ≢ k.opcodes)
    × (h.closure ≡ false → k.closure ≡ false → h.addr ≢ k.addr)

found-IsApart :
    (h k : Head) (d : ℕ) (s : Copies) → find_copy h s ≡ none → find_copy k s ≡ some d → IsApart h k
found-IsApart h k d s gone there =
    (λ a b e. ground (arith, ap s.bases e), λ a b e. ground (arith, ap s.resolve e))

register-keeps :
    (h k : Head) (c d : ℕ) (s : Copies)
    → IsApart h k
    → find_copy k s ≡ some d
    → find_copy k (register h (c, s)).1 ≡ some d
unfolding register add_function_ref
register-keeps h k c d s apart there = ground (arith, apart)

found_or_made-keeps :
    (h k : Head) (made : ℕ × Copies) (d : ℕ) (s : Copies)
    → find_copy k s ≡ some d
    → find_copy k made.1 ≡ some d
    → find_copy k (found_or_made h made s).1 ≡ some d
unfolding found_or_made
found_or_made-keeps h k made d s there after = elim (Bool-cases h.immutable) [
  | inl e ↦
      ap (λ b. find_copy k (if b then (h.addr, s) else or_register h made s (find_copy h s)).1) e
      ∙ there
  | inr e ↦
      ap (λ b. find_copy k (if b then (h.addr, s) else or_register h made s (find_copy h s)).1) e
      ∙ elim (Option-cases (find_copy h s)) [
        | inl gone ↦
            ap (λ o. find_copy k (or_register h made s o).1) gone
            ∙ register-keeps h k made.0 d made.1 (found-IsApart h k d s gone there) after
        | inr (c, found) ↦
            ap (λ o. find_copy k (or_register h made s o).1) found
            ∙ add_function_ref-find k c s
            ∙ there
      ]
]

make_copy-keeps :
    (h k : Head) (with_defs : Copies) (d : ℕ) (s : Copies)
    → find_copy k s ≡ some d
    → find_copy k with_defs ≡ some d
    → find_copy k (make_copy h with_defs s).1 ≡ some d
make_copy-keeps h k with_defs d s there after = ground arith

-- A function that has a copy keeps it, whatever function is copied.
mutual
  unfolding copy_function

  pub copy_function-keeps :
      (f : Function) (k : Head) (d : ℕ) (s : Copies)
      → find_copy k s ≡ some d
      → find_copy k (copy_function f s).1 ≡ some d
  copy_function-keeps (function h fs) k d s there =
      let with_defs = copy_dynamic_func_defs fs (new_user_function h s).1 in
      found_or_made-keeps h k (make_copy h with_defs s) d s there (
        make_copy-keeps h k with_defs d s there
          (copy_dynamic_func_defs-keeps fs k d (new_user_function h s).1 there))

  pub copy_dynamic_func_defs-keeps :
      (fs : Functions) (k : Head) (d : ℕ) (s : Copies)
      → find_copy k s ≡ some d
      → find_copy k (copy_dynamic_func_defs fs s) ≡ some d
  copy_dynamic_func_defs-keeps no_more k d s there = there
  copy_dynamic_func_defs-keeps (more f fs) k d s there =
      copy_dynamic_func_defs-keeps fs k d (copy_function f s).1 (copy_function-keeps f k d s there)

abbrev pub head : Function → Head
head (function h fs) = h

pub copy_function-found :
    (f : Function) (c : ℕ) (s : Copies)
    → (head f).immutable ≡ false
    → find_copy (head f) s ≡ some c
    → copy_function f s ≡ (c, add_function_ref c s)
unfolding copy_function found_or_made
copy_function-found (function h fs) c s mutable there =
    let made = make_copy h (copy_dynamic_func_defs fs (new_user_function h s).1) s in
    ap (λ b. if b then (h.addr, s) else or_register h made s (find_copy h s)) mutable
    ∙ ap (or_register h made s) there

pub copy_function-entered :
    (f : Function) (s : Copies)
    → (head f).immutable ≡ false
    → find_copy (head f) (copy_function f s).1 ≡ some (copy_function f s).0
unfolding copy_function found_or_made
copy_function-entered (function h fs) s mutable =
    let made = make_copy h (copy_dynamic_func_defs fs (new_user_function h s).1) s in
    let answer = or_register h made s in
    let entered : find_copy h (answer (find_copy h s)).1 ≡ some (answer (find_copy h s)).0 =
      elim (Option-cases (find_copy h s)) [
        | inl gone ↦
            subst (λ o. find_copy h (answer o).1 ≡ some (answer o).0) (sym gone)
              (register-find h made.0 made.1 ∙ ap some (sym (register-first h made.0 made.1)))
        | inr (c, found) ↦
            subst (λ o. find_copy h (answer o).1 ≡ some (answer o).0) (sym found)
              (add_function_ref-find h c s ∙ found)
      ] in
    subst
      (λ b.
        find_copy h (if b then (h.addr, s) else answer (find_copy h s)).1
        ≡ some (if b then (h.addr, s) else answer (find_copy h s)).0)
      (sym mutable) entered

-- A function is copied once for a thread: after a function that is not immutable has been copied, and
-- any others after it, with the functions declared in them, copying it again gives the same copy,
-- makes none, and only counts what is given out: a reference to the copy, where it counts them, and
-- one to its name.
pub copied_once :
    (f : Function) (others : Functions) (s : Copies)
    → (head f).immutable ≡ false
    → let (c, s1) = copy_function f s in
      let s2 = copy_dynamic_func_defs others s1 in copy_function f s2 ≡ (c, add_function_ref c s2)
copied_once f others s mutable =
    let (c, s1) = copy_function f s in
    copy_function-found f c (copy_dynamic_func_defs others s1) mutable
      (copy_dynamic_func_defs-keeps others (head f) c s1 (copy_function-entered f s mutable))
