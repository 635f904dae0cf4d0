-- ===== src/Prepare/Known.antt =====
-- The functions that a new thread knows, by the loop of src/prepare.c.
use Prim.Native.String.{String}
use text.Mathlib.Text.{◌==◌ as str_eq}
use text.Mathlib.TextEquality.{eq_iff}
use mathlib.Core.Option.{some-injective}
use ext_pmmpthread.Prelude.{
  ℕ, ◌≡◌, refl, sym, ap, ◌∙◌, subst, true, false, not, ◌||◌, none, some, [], ◌∷◌, ◌++◌, is_some,
  if◌then◌else◌, Bool-cases, inl, inr, arith,
}
use ext_pmmpthread.Copy.Functions.{Head, Function, find_copy, add_function_ref, copy_function}
use ext_pmmpthread.Copy.Once.{head, copy_function-keeps, copy_function-found, copy_function-entered}
use ext_pmmpthread.Prepare.Tables.{Table, find, IsDistinct}
use ext_pmmpthread.Prepare.Startup.{
  is_user, Known, is_skipped, add_copy, prepare_function, prepare_functions,
}

find-append_some :
    {A : Type 0} (k : String) (t u : Table A) (x : A) → find k t ≡ some x → find k (t ++ u) ≡ some x
find-append_some k [] u x h = ground arith
find-append_some k ((m, y) ∷ t) u x h = ground (arith, find-append_some k t u x)

find-append_none :
    {A : Type 0} (k : String) (t u : Table A) → find k t ≡ none → find k (t ++ u) ≡ find k u
find-append_none k [] u h = refl
find-append_none k ((m, y) ∷ t) u h = ground (arith, find-append_none k t u)

-- What a thread has is kept by every step: the function of a name, and the copy of a function.
step-keeps :
    (P : Known → Type 0) (name : String) (f : Function) (known : Known)
    → P known
    → P (add_copy name f known)
    → P (prepare_function name f known)
step-keeps P name f known h h' = elim (Bool-cases (is_skipped name f known.0)) [
  | inl e ↦ subst (λ b. P (if b then known else add_copy name f known)) (sym e) h
  | inr e ↦ subst (λ b. P (if b then known else add_copy name f known)) (sym e) h'
]

-- A name that a thread has keeps its function.
pub prepare_functions-keeps :
    (creator : Table Function) (known : Known) (k : String) (a : ℕ)
    → find k known.0 ≡ some a
    → find k (prepare_functions creator known).0 ≡ some a
unfolding prepare_functions
prepare_functions-keeps [] known k a h = h
prepare_functions-keeps ((name, f) ∷ more) known k a h =
    prepare_functions-keeps more (prepare_function name f known) k a (
      step-keeps (λ q. find k q.0 ≡ some a) name f known h
        (find-append_some k known.0 ((name, (copy_function f known.1).0) ∷ []) a h))

prepare_functions-keeps_copy :
    (creator : Table Function) (known : Known) (h : Head) (d : ℕ)
    → find_copy h known.1 ≡ some d
    → find_copy h (prepare_functions creator known).1 ≡ some d
unfolding prepare_functions
prepare_functions-keeps_copy [] known h d q = q
prepare_functions-keeps_copy ((name, f) ∷ more) known h d q =
    prepare_functions-keeps_copy more (prepare_function name f known) h d (
      step-keeps (λ q. find_copy h q.1 ≡ some d) name f known q
        (copy_function-keeps f h d known.1 q))

-- What is to be shown of a name `k` for a function `f`.
abbrev pub IsKnown : String → Function → Known → Type 0
IsKnown k f (table, s) =
    (c : ℕ) × ((find k table ≡ some c) × (copy_function f s ≡ (c, add_function_ref c s)))

added_last :
    (k : String) (c : ℕ) (table : Table ℕ)
    → find k table ≡ none
    → find k (table ++ (k, c) ∷ []) ≡ some c
added_last k c table h =
    find-append_none k table ((k, c) ∷ []) h
    ∙ ap (λ b. if b then some c else none) ((eq_iff k k).1 refl)

added_other :
    (n k : String) (c : ℕ) (table : Table ℕ)
    → str_eq n k ≡ false
    → find k table ≡ none
    → find k (table ++ (n, c) ∷ []) ≡ none
added_other n k c table ne h =
    find-append_none k table ((n, c) ∷ []) h ∙ ap (λ b. if b then some c else none) ne

known_after :
    (more : Table Function) (known : Known) (k : String) (f : Function)
    → is_user f ≡ true
    → (head f).immutable ≡ false
    → find k known.0 ≡ none
    → IsKnown k f (prepare_functions more (prepare_function k f known))
known_after more known k f user mutable own =
    let (c, s') = copy_function f known.1 in
    let after = add_copy k f known in
    let taken : prepare_function k f known ≡ after =
      ap (λ b. if not b || is_some (find k known.0) then known else after) user
      ∙ ap (λ o. if is_some o then known else after) own in
    subst (λ q. IsKnown k f (prepare_functions more q)) (sym taken)
      (
        c,
        (
          prepare_functions-keeps more after k c (added_last k c known.0 own),
          copy_function-found f c (prepare_functions more after).1 mutable (
              prepare_functions-keeps_copy more after (head f) c
                (copy_function-entered f known.1 mutable)),
        ),
      )

-- A new thread knows the functions of its creator: a user function that the thread has none of the name
-- of is there under its name, as the one copy that every later copy of that function gives. The
-- names in the creator's table differ, and the function is not an immutable one, which is shared.
pub prepare_functions_lem :
    (creator : Table Function) (known : Known) (k : String) (f : Function)
    → IsDistinct creator
    → find k creator ≡ some f
    → is_user f ≡ true
    → (head f).immutable ≡ false
    → find k known.0 ≡ none
    → IsKnown k f (prepare_functions creator known)
unfolding prepare_functions
prepare_functions_lem [] known k f d there user mutable own = ground arith
prepare_functions_lem ((n, g) ∷ more) known k f (only, d) there user mutable own =
    elim (Bool-cases (str_eq n k)) [
      | inl e ↦
          let same : g ≡ f =
            some-injective g f (sym (ap (λ b. if b then some g else find k more) e) ∙ there) in
          subst (λ m. IsKnown k f (prepare_functions more (prepare_function m g known)))
            (sym ((eq_iff n k).0 e))
            (subst (λ o. IsKnown k f (prepare_functions more (prepare_function k o known)))
              (sym same) (known_after more known k f user mutable own))
      | inr e ↦
          prepare_functions_lem more (prepare_function n g known) k f d
            (sym (ap (λ b. if b then some g else find k more) e) ∙ there) user mutable
            (step-keeps (λ q. find k q.0 ≡ none) n g known own
              (added_other n k (copy_function g known.1).0 known.0 e own))
    ]
