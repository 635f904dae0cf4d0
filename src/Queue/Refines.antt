-- ===== src/Queue/Refines.antt =====
-- What a queue of src/queue.c stands for, and that `push` and `unshift` add at its two ends.
use ext_pmmpthread.Prelude.{
  ◌%◌, ◌≡◌, refl, sym, ap, ◌∙◌, ◌≢◌, ==_iff, some, [], ◌∷◌, ◌++◌, ◌⊎◌, inl, inr, length,
  length-append, arith,
}
use ext_pmmpthread.Memory.{Ptr, null, Value, Item, item, Mem, write}
use ext_pmmpthread.Memory.Cells.{
  Holds, not_null, load-ok, store-ok, Holds-write_self, Holds-write_ne,
}
use ext_pmmpthread.Memory.Returns.{Returns, returns}
use ext_pmmpthread.Queue.{Queue, long_mod, push}
use ext_pmmpthread.Queue.Chain.{
  Cells, ◌∉◌, first_of, first_of-append, last_of, Chain, SameOutside, has-append, last_of-append,
  frame-write, join, split, set_last,
}

-- The queue struct points at both ends of a chain of the items `xs`, and counts them modulo 2 ^ 64.
pub record IsQueue (m : Mem) (q : Queue) (xs : Cells) : Type 0 where
  pub chain : Chain m null xs null
  pub head : q.head ≡ first_of xs null
  pub tail : q.tail ≡ last_of null xs
  pub size : q.size ≡ length xs % long_mod

-- No reference count changes, and only the addresses of `xs` are written.
pub record Frames (xs : Cells) (m g : Mem) : Type 0 where
  pub same : SameOutside xs m g
  pub refs : (v : Value) → g.refs v ≡ m.refs v

pub snoc_view :
    (xs : Cells) → (xs ≡ []) ⊎ ((ys : Cells) × (t : Ptr) × (w : Value) × (xs ≡ ys ++ (t, w) ∷ []))
snoc_view [] = inl refl
snoc_view ((p, v) ∷ xs) = elim (snoc_view xs) [
  | inl e ↦ inr ([], p, v, ap (◌∷◌ (p, v)) e)
  | inr (ys, t, w, e) ↦ inr ((p, v) ∷ ys, t, w, ap (◌∷◌ (p, v)) e)
]

abbrev pub Pushed : Mem → Cells → Queue → Mem → Type 0
Pushed m ys q g = IsQueue g q ys × Frames ys m g

push_empty :
    (m : Mem) (q : Queue) (p : Ptr) (i : Item)
    → IsQueue m q []
    → Holds m p i
    → Returns (Pushed m ((p, i.value) ∷ [])) (push q p m)
unfolding push write
push_empty m q p i is h =
    rw (is.tail, load-ok h, store-ok h)
      (returns (
        record {
          chain = (Holds-write_self h _, refl, tt);
          head = refl;
          tail = refl;
          size = omega (arith, is.size);
        },
        record { same = λ a o. ground arith; refs = λ v. refl },
      ))

push_last :
    (m : Mem) (q : Queue) (ys : Cells) (t : Ptr) (w : Value) (p : Ptr) (i : Item)
    → IsQueue m q (ys ++ (t, w) ∷ [])
    → Holds m p i
    → p ∉ (ys ++ (t, w) ∷ [])
    → Returns (Pushed m ((ys ++ (t, w) ∷ []) ++ (p, i.value) ∷ [])) (push q p m)
unfolding push write
push_last m q ys t w p i is h out =
    let s = split m null ys ((t, w) ∷ []) null is.chain in
    let at_tail : q.tail ≡ t = is.tail ∙ last_of-append null ys ((t, w) ∷ []) in
    let apart : p ≢ t = λ e. ground (arith, has-append p ys ((t, w) ∷ []), ==_iff p t) in
    let h' = Holds-write_ne h t (some (item p (last_of null ys) w)) apart in
    rw (at_tail, not_null s.back.0, load-ok s.back.0, store-ok s.back.0, load-ok h', store-ok h')
      (returns (
        record {
          chain =
              join _ null (ys ++ (t, w) ∷ []) ((p, i.value) ∷ []) null
                (frame-write _ p _ null (ys ++ (t, w) ∷ []) p
                  (set_last m null ys t w null p is.chain) out)
                (rw (last_of-append null ys ((t, w) ∷ [])) (Holds-write_self h' _), refl, tt)
                (λ a o. ground (arith, ==_iff a p));
          head = rw is.head (simp first_of-append);
          tail = sym (last_of-append null (ys ++ (t, w) ∷ []) ((p, i.value) ∷ []));
          size = omega (arith, is.size, length-append (ys ++ (t, w) ∷ []) ((p, i.value) ∷ []));
        },
        record {
          same = λ a o. ground (
            arith,
            has-append a (ys ++ (t, w) ∷ []) ((p, i.value) ∷ []),
            has-append a ys ((t, w) ∷ []),
          );
          refs = λ v. refl;
        },
      ))

-- `push` appends the item: the values that the queue holds are those it held, in order, and then
-- the new one; no count of references changes and no item outside the queue is written.
pub push-append :
    (m : Mem) (q : Queue) (xs : Cells) (p : Ptr) (i : Item)
    → IsQueue m q xs
    → Holds m p i
    → p ∉ xs
    → Returns (Pushed m (xs ++ (p, i.value) ∷ [])) (push q p m)
push-append m q xs p i is h out = elim (snoc_view xs) [
  | inl e ↦ rw e (push_empty m q p i (rw e at is) h)
  | inr (ys, t, w, e) ↦ rw e (push_last m q ys t w p i (rw e at is) h (rw e at out))
]
