-- ===== src/Memory/Returns.antt =====
-- Total correctness of a run: no fault, enough fuel, and a postcondition.
use ext_pmmpthread.Memory.{Mem, Run, ok, Cmd, and_then}

pub data Returns {A : Type 0} (P : A → Mem → Type 0) : Run A → Type 0 where
  returns : {a : A} {m : Mem} → P a m → Returns P (ok a m)

module _ {A : Type 0} {P : A → Mem → Type 0} where
  pub bind :
      {B : Type 0} {Q : B → Mem → Type 0} {r : Run A} {k : A → Cmd B}
      → Returns P r
      → ((a : A) (m : Mem) → P a m → Returns Q (k a m))
      → Returns Q (and_then r k)
  bind (returns p) next = next _ _ p

  pub mono :
      {Q : A → Mem → Type 0} {r : Run A}
      → Returns P r
      → ((a : A) (m : Mem) → P a m → Q a m)
      → Returns Q r
  mono (returns p) weaken = returns (weaken _ _ p)
