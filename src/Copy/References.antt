-- ===== src/Copy/References.antt =====
-- The references to a connection after src/copy.c has copied a closure.
use ext_pmmpthread.Prelude.{
  ℕ, ◌+◌, ◌≡◌, Bool, ◌⊎◌, inl, inr, Option, none, some, ◌==◌, if◌then◌else◌,
}
use ext_pmmpthread.Copy.Closures.{NewClosure, Lost, Calls, Refs, Outcome}

-- 1 for the connection itself, and 0 for any other.
abbrev pub one_for : Option ℕ → ℕ → ℕ
one_for none c = 0
one_for (some d) c = if c == d then 1 else 0

-- The connection that the call has made to the object that the closure is bound to.
abbrev pub own_connection : Calls → Option ℕ → Option ℕ
own_connection C none = none
own_connection C (some obj) = C.connect obj

-- The references that are left after the call: the closure's own, or what a failed call has left behind.
abbrev pub left_by : Lost ⊎ NewClosure → Option ℕ → ℕ → ℕ
left_by (inl why) z c = one_for z c
left_by (inr n) z c = one_for n.this c

module _ (C : Calls) (silent : Bool) where
  abbrev Counts : Option ℕ → Refs → ℕ → Outcome → Type 0
  Counts z r c out = out.refs c ≡ r c + left_by out.result z c
