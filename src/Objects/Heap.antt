-- ===== src/Objects/Heap.antt =====
-- The connections of src/object.c as a list: what is found at an address, and how many belong to an
-- object.
use ext_pmmpthread.Prelude.{
  ℕ, suc, ◌≡◌, ◌≢◌, none, some, List, [], ◌∷◌, ◌==◌, if◌then◌else◌, true, false, arith,
}
use ext_pmmpthread.Objects.{ZendObject, at, without}

-- The number of connections that belong to an object.
abbrev pub users : ℕ → List ZendObject → ℕ
users ts [] = 0
users ts (z ∷ zs) = if z.ts_obj == ts then suc (users ts zs) else users ts zs

abbrev pub Distinct : List ZendObject → Type 0
Distinct [] = Unit
Distinct (z ∷ zs) = (at z.addr zs ≡ none) × Distinct zs

pub at-addr : (a : ℕ) (zs : List ZendObject) (z : ZendObject) → at a zs ≡ some z → z.addr ≡ a
at-addr a [] z h = ground arith
at-addr a (y ∷ zs) z h = ground (arith, at-addr a zs z)

-- An object that a connection belongs to has a connection.
pub at-users :
    (a : ℕ) (zs : List ZendObject) (z : ZendObject) → at a zs ≡ some z → users z.ts_obj zs ≢ 0
at-users a [] z h = ground arith
at-users a (y ∷ zs) z h = ground (arith, at-users a zs z)

pub users-without :
    (a : ℕ) (zs : List ZendObject) (z : ZendObject) (ts : ℕ)
    → at a zs ≡ some z
    → users ts zs
      ≡ (if z.ts_obj == ts then suc (users ts (without a zs)) else users ts (without a zs))
users-without a [] z ts h = ground arith
users-without a (y ∷ zs) z ts h = ground (arith, users-without a zs z ts)

pub at-without :
    (a b : ℕ) (zs : List ZendObject)
    → Distinct zs
    → at b (without a zs) ≡ (if a == b then none else at b zs)
at-without a b [] d = ground arith
at-without a b (z ∷ zs) d = ground (arith, at-without a b zs d.1, d.0)

pub without-Distinct : (a : ℕ) (zs : List ZendObject) → Distinct zs → Distinct (without a zs)
without-Distinct a [] d = tt
without-Distinct a (z ∷ zs) d =
    elim (z.addr == a) as (λ b. Distinct (if b then zs else z ∷ without a zs)) [
      | true ↦ d.1
      | false ↦ (ground (arith, at-without a z.addr zs d.1, d.0), without-Distinct a zs d.1)
    ]
