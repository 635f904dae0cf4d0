-- ===== src/Queue/Ends.antt =====
-- `shift` and `pop` take from the two ends, and `unshift` puts an item in front.
use ext_pmmpthread.Prelude.{
  ◌%◌, ◌<◌, ◌≡◌, refl, sym, subst, ◌∙◌, ◌≢◌, false, none, some, [], ◌∷◌, ◌++◌, length, arith,
}
use ext_pmmpthread.Memory.{Ptr, null, Value, Item, item, Mem, write, ok}
use ext_pmmpthread.Memory.Cells.{
  Holds, not_null, load-ok, store-ok, Holds-write_self, Holds-write_ne,
}
use ext_pmmpthread.Memory.Returns.{Returns, returns}
use ext_pmmpthread.Queue.{Queue, long_mod, Mode, Removed, unshift, remove, shift, pop}
use ext_pmmpthread.Queue.Chain.{
  Cells, ◌∉◌, Chain, first_of, last_of, last_of-append, frame-write, set_first,
}
use ext_pmmpthread.Queue.Refines.{IsQueue, Frames}
use ext_pmmpthread.Queue.Remove.{IsRemoved, remove_lem}

-- `shift` takes the first item of a queue that has one, as `remove` does, and the queue of the
-- others is left; a value that is not handed out must hold a reference.
pub shift-cons :
    (m : Mem) (q : Queue) (p : Ptr) (v : Value) (xs : Cells) (mode : Mode)
    → IsQueue m q ((p, v) ∷ xs)
    → (mode.want ≡ false → 0 < m.refs v)
    → Returns (IsRemoved m mode.want mode.free [] p v xs) (shift q mode m)
unfolding shift
shift-cons m q p v xs mode is held =
    subst (λ a. Returns (IsRemoved m mode.want mode.free [] p v xs) (remove q a mode m))
      (sym is.head) (remove_lem m q p v [] xs is mode held)

-- `pop` takes the last item of a queue that has one, as `remove` does, and the queue of the others
-- is left; a value that is not handed out must hold a reference.
pub pop-snoc :
    (m : Mem) (q : Queue) (p : Ptr) (v : Value) (xs : Cells) (mode : Mode)
    → IsQueue m q (xs ++ (p, v) ∷ [])
    → (mode.want ≡ false → 0 < m.refs v)
    → Returns (IsRemoved m mode.want mode.free xs p v []) (pop q mode m)
unfolding pop
pop-snoc m q p v xs mode is held =
    subst (λ a. Returns (IsRemoved m mode.want mode.free xs p v []) (remove q a mode m))
      (sym (is.tail ∙ last_of-append null xs ((p, v) ∷ []))) (remove_lem m q p v xs [] is mode held)

-- On an empty queue `shift` and `pop` change nothing, hand nothing out and return 0.
pub take_empty :
    (m : Mem) (q : Queue) (mode : Mode)
    → IsQueue m q []
    → let r : Removed = record { queue = q; value = none; returned = 0 } in
      (shift q mode m ≡ ok r m) × (pop q mode m ≡ ok r m)
unfolding shift pop remove
take_empty m q mode is = (ground (arith, is.head), ground (arith, is.tail))

-- What `unshift` leaves: the links of the longer queue, and the count of the shorter one.
pub record Uncounted (m : Mem) (p : Ptr) (v : Value) (xs : Cells) (q : Queue) (g : Mem)
    : Type 0 where
  pub chain : Chain g null ((p, v) ∷ xs) null
  pub head : q.head ≡ p
  pub tail : q.tail ≡ last_of null ((p, v) ∷ xs)
  pub size : q.size ≡ length xs % long_mod
  pub wrong : q.size ≢ length ((p, v) ∷ xs) % long_mod
  pub frames : Frames ((p, v) ∷ xs) m g

-- `unshift` links the item in front of the others, but never counts it: the size stays that of the
-- queue without it, which is not the number of items linked, whatever the queue.
pub unshift-Uncounted :
    (m : Mem) (q : Queue) (xs : Cells) (p : Ptr) (i : Item)
    → IsQueue m q xs
    → Holds m p i
    → p ∉ xs
    → Returns (Uncounted m p i.value xs) (unshift q p m)
unfolding unshift write
unshift-Uncounted m q [] p i is h out =
    rw (is.head, load-ok h, store-ok h)
      (returns (record {
        chain = (Holds-write_self h _, refl, tt);
        head = refl;
        tail = refl;
        size = is.size;
        wrong = omega (arith, is.size);
        frames = record { same = λ a o. ground arith; refs = λ v. refl };
      }))
unshift-Uncounted m q ((n, w) ∷ xs) p i is h out =
    let hn = is.chain.0 in
    let ne : p ≢ n = ground arith in
    let h' = Holds-write_ne h n (some (item (first_of xs null) p w)) ne in
    rw (is.head, not_null hn, load-ok hn, store-ok hn, load-ok h', store-ok h')
      (returns (record {
        chain = (
          Holds-write_self h' _,
          out,
          frame-write _ p _ p ((n, w) ∷ xs) null (set_first m null p n w xs null is.chain) out,
        );
        head = refl;
        tail = is.tail;
        size = is.size;
        wrong = omega (arith, is.size);
        frames = record { same = λ a o. ground arith; refs = λ v. refl };
      }))
