-- ===== src/Queue/Clean.antt =====
-- `pmmpthread_queue_clean` releases and frees what the queue holds, once each.
use ext_pmmpthread.Prelude.{
  ℕ, zero, suc, ◌-◌, ◌+◌, ◌≤◌, ◌<◌, ◌≡◌, refl, none, ◌==◌, ==_iff, ==_self, [], ◌∷◌, length, arith,
  if◌then◌else◌,
}
use ext_pmmpthread.Memory.{Ptr, null, Value, item, Mem, write, count as set_count, update}
use ext_pmmpthread.Memory.Cells.{Holds, not_null, load-ok, efree-ok, dtor-ok}
use ext_pmmpthread.Memory.Returns.{Returns, returns}
use ext_pmmpthread.Memory.Returns
use ext_pmmpthread.Queue.{Queue, clean_loop, clean}
use ext_pmmpthread.Queue.Chain.{Cells, has, first_of, Chain, frame}
use ext_pmmpthread.Queue.Refines.{IsQueue}

-- How often the items of the queue hold the value.
abbrev pub held : Value → Cells → ℕ
held v [] = 0
held v ((p, w) ∷ xs) = (if v == w then 1 else 0) + held v xs

pub record Cleaned (m : Mem) (xs : Cells) (g : Mem) : Type 0 where
  pub cells : (a : Ptr) → g.cell a ≡ (if has a xs then none else m.cell a)
  pub refs : (v : Value) → g.refs v + held v xs ≡ m.refs v

-- Once the first item's reference is gone, there are still enough for the others.
fewer :
    (f : Value → ℕ) (v x : Value) (n : ℕ)
    → (if x == v then 1 else 0) + n ≤ f x
    → n ≤ update f v (f v - 1) x
fewer f v x n h = ground (arith, ==_iff x v)

restored :
    (f : Value → ℕ) (v x : Value) (n r : ℕ)
    → (if x == v then 1 else 0) + n ≤ f x
    → r + n ≡ update f v (f v - 1) x
    → r + ((if x == v then 1 else 0) + n) ≡ f x
restored f v x n r h e = ground (arith, ==_iff x v)

clean_loop-Cleaned :
    (k : ℕ) (m : Mem) (prev : Ptr) (xs : Cells)
    → Chain m prev xs null
    → length xs < k
    → ((v : Value) → held v xs ≤ m.refs v)
    → Returns (λ _ g. Cleaned m xs g) (clean_loop k (first_of xs null) m)
unfolding clean_loop write set_count
clean_loop-Cleaned zero m prev xs c fuel enough = absurd (omega arith)
clean_loop-Cleaned (suc k) m prev [] c fuel enough =
    returns (record { cells = λ a. refl; refs = λ v. omega arith })
clean_loop-Cleaned (suc k) m prev ((p, v) ∷ xs) (h, out, c) fuel enough =
    let one : 0 < m.refs v = ground (arith, enough v, ==_self v) in
    let m' = set_count m v (m.refs v - 1) in
    let h' : Holds m' p (item (first_of xs null) prev v) = record {
      ne_null = h.ne_null;
      holds = h.holds;
    } in
    let c' = frame m (write m' p none) p xs null c (λ a i. ground (arith, ==_iff a p)) in
    rw (not_null h, load-ok h, dtor-ok v m one, load-ok h', efree-ok h')
      (Returns.mono
        (clean_loop-Cleaned k _ p xs c' (omega arith)
          (λ x. fewer m.refs v x (held x xs) (enough x)))
        λ _ g d. record {
          cells = λ a. ground (arith, d.cells a);
          refs = λ x. restored m.refs v x (held x xs) (g.refs x) (enough x) (d.refs x);
        })

-- The loop frees every item of the queue and no other, and releases one reference for each item that
-- holds a value, given one round more than there are items and as many references as items.
pub clean-Cleaned :
    (fuel : ℕ) (m : Mem) (q : Queue) (xs : Cells)
    → IsQueue m q xs
    → length xs < fuel
    → ((v : Value) → held v xs ≤ m.refs v)
    → Returns (λ _ g. Cleaned m xs g) (clean fuel q m)
unfolding clean
clean-Cleaned fuel m q xs is enough refs =
    rw is.head (clean_loop-Cleaned fuel m null xs is.chain enough refs)
