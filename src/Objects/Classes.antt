-- ===== src/Objects/Classes.antt =====
-- src/object.c: what the constructor of an object writes to its store, and what its destructor does
-- before the object goes.
use Prim.Native.Nat.{bit_and}
use Prim.Native.String.{String}
use ext_pmmpthread.Prelude.{
  ℕ, ◌≡◌, ◌∙◌, ap, Bool, true, false, not, ◌&&◌, ◌||◌, Option, none, some, List, [], ◌∷◌, ◌==◌,
  if◌then◌else◌, Bool-cases, inl, inr,
}
use ext_pmmpthread.Memory.{update}
use ext_pmmpthread.Monitor.{started, joined}
use ext_pmmpthread.Store.Types.{Ident}
use ext_pmmpthread.Routine.{has}
use ext_pmmpthread.Objects.{scope_thread, scope_worker, TsObject, ZendObject}

-- A property of a class: whether an object has it (PMMPTHREAD_OBJECT_PROPERTY), its mangled name, and
-- where its value lies in an object.
pub record PropertyInfo : Type 0 where
  pub in_object : Bool
  pub name : String
  pub offset : ℕ

module _ {V S : Type 0} (write : String → V → S → Bool × S) (throw : String → S → S) where
  -- The values in the object that are still there, and the state with the store.
  abbrev pub Slots : Type 0
  Slots = (ℕ → Option V) × S

  -- The loop over the properties of one class; it is left when a value cannot be stored. `write` is
  -- pmmpthread_store_write.
  unfoldable pub write_class_defaults : List PropertyInfo → Slots → Slots
  write_class_defaults [] o = o
  write_class_defaults (i ∷ is) (slots, s) = elim i.in_object [
    | false ↦ write_class_defaults is (slots, s)
    | true ↦ elim (slots i.offset) [
      | none ↦ write_class_defaults is (slots, s)
      | some v ↦
          (let (ok, s) = write i.name v s in
            elim ok [
              | true ↦ write_class_defaults is (update slots i.offset none, s)
              | false ↦ (slots, throw i.name s)
            ])
    ]
  ]

  -- The loop over the class and its parents.
  unfoldable pub write_property_defaults : List (List PropertyInfo) → Slots → Slots
  unfolding write_class_defaults
  write_property_defaults [] o = o
  write_property_defaults (is ∷ parents) o =
      write_property_defaults parents (write_class_defaults is o)

-- The destructor joins a thread or a worker that its creator has started and not joined.
unfoldable pub must_join : Ident → TsObject → ℕ → Bool
must_join t o flags =
    (o.creator == t)
    && ((not (bit_and o.scope scope_thread == 0) || not (bit_and o.scope scope_worker == 0))
        && (has started flags && not (has joined flags)))

-- The flags after the destructor. `user_join` is a call of the method `join`, which a class may
-- override, and `join` is `pmmpthread_join`.
unfoldable pub base_dtor : (user_join join : ℕ → ℕ) → Ident → TsObject → ℕ → ℕ
unfolding must_join
base_dtor user_join join t o flags =
    if must_join t o flags
    then (if has joined (user_join flags) then user_join flags else join (user_join flags))
    else flags

-- A thread that is destroyed by its creator and has been started is joined, whatever the method `join`
-- of its class does, when `pmmpthread_join` joins it.
pub base_dtor-Joined :
    (user_join join : ℕ → ℕ) (t : Ident) (o : TsObject) (flags : ℕ)
    → ((f : ℕ) → has joined (join f) ≡ true)
    → must_join t o flags ≡ true
    → has joined (base_dtor user_join join t o flags) ≡ true
unfolding base_dtor
base_dtor-Joined user_join join t o flags joins must =
    ap
      (λ b. has joined (
        if b
        then (if has joined (user_join flags) then user_join flags else join (user_join flags))
        else flags))
      must
    ∙ elim (Bool-cases (has joined (user_join flags))) [
      | inl e ↦ ap (λ b. has joined (if b then user_join flags else join (user_join flags))) e ∙ e
      | inr e ↦
          ap (λ b. has joined (if b then user_join flags else join (user_join flags))) e
          ∙ joins (user_join flags)
    ]

-- What is reachable through a connection besides its properties. `extra` is what
-- `pmmpthread_worker_get_gc_extra` gives.
unfoldable pub base_gc : {V : Type 0} → ZendObject → (extra : List V) → List V
base_gc z extra = if z.worker_data then extra else []

-- The thread's own object, if it has one.
unfoldable pub current_thread : {V : Type 0} → (this : Option V) → Option V
current_thread this = this
