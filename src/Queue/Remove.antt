-- ===== src/Queue/Remove.antt =====
-- `pmmpthread_queue_remove`, at any item of a queue.
use ext_pmmpthread.Prelude.{
  ◌-◌, ◌%◌, ◌<◌, ◌≡◌, refl, ==_self, Bool, true, false, Option, none, some, ◌∷◌, ◌++◌, length,
  length-append, arith, if◌then◌else◌,
}
use ext_pmmpthread.Memory.{
  Ptr, null, Value, item, Mem, write, count as set_count, update, and_then, pure, ◌>>◌,
}
use ext_pmmpthread.Memory.Cells.{Holds, not_null, load-ok, efree-ok, dtor-ok}
use ext_pmmpthread.Memory.Returns
use ext_pmmpthread.Memory.Returns.{Returns, returns}
use ext_pmmpthread.Queue.{Queue, long_mod, dec, Mode, Removed, hand_out, discard, remove}
use ext_pmmpthread.Queue.Chain.{
  Cells, ◌∉◌, first_of, last_of, Chain, SameOutside, has-append, frame, frame-write, split,
  not-mem_of_apart,
}
use ext_pmmpthread.Queue.Refines.{IsQueue}
use ext_pmmpthread.Queue.Detach.{Detached, detach_lem}

-- What a call of `remove` leaves: the queue without the item, counted; the value handed out, or one
-- reference to it released; the item freed, or still in the heap; and nothing else changed.
pub record IsRemoved (m : Mem) (want free : Bool) (ys : Cells) (p : Ptr) (v : Value) (zs : Cells)
    (r : Removed) (g : Mem) : Type 0 where
  pub queue : IsQueue g r.queue (ys ++ zs)
  pub value : r.value ≡ (if want then some v else none)
  pub returned : r.returned ≡ length (ys ++ zs) % long_mod
  pub freed : free ≡ true → g.cell p ≡ none
  pub kept : free ≡ false → (n b : Ptr) × Holds g p (item n b v)
  pub same : SameOutside ((p, v) ∷ (ys ++ zs)) m g
  pub refs : (x : Value) → g.refs x ≡ (if want then m.refs x else update m.refs v (m.refs v - 1) x)

module _ (m : Mem) (q : Queue) (p : Ptr) (v : Value) (ys zs : Cells)
    (is : IsQueue m q (ys ++ (p, v) ∷ zs)) where
  out_of_rest : p ∉ (ys ++ zs)
  out_of_rest =
      let s = split m null ys ((p, v) ∷ zs) null is.chain in
      let out = not-mem_of_apart p ys ((p, v) ∷ zs) s.apart (ground (arith, ==_self p)) in
      rw (has-append p ys zs, out) s.back.1

  -- The references and the value are settled; the item is freed or stays.
  module _ (want : Bool) (q' : Queue) (g : Mem) (w : Option Value) where
    record Settled : Type 0 where
      chain : Chain g null (ys ++ zs) null
      head : q'.head ≡ first_of (ys ++ zs) null
      tail : q'.tail ≡ last_of null (ys ++ zs)
      size : q'.size ≡ q.size
      still : (n b : Ptr) × Holds g p (item n b v)
      same : SameOutside (ys ++ zs) m g
      value : w ≡ (if want then some v else none)
      refs : (x : Value) → g.refs x ≡ (if want then m.refs x else update m.refs v (m.refs v - 1) x)

    abbrev left : Removed
    left = record { queue = record q' { size = dec q'.size }; value = w; returned = dec q'.size }

    counted : Settled → dec q'.size ≡ length (ys ++ zs) % long_mod
    counted d = omega (arith, d.size, is.size, length-append ys ((p, v) ∷ zs), length-append ys zs)

    settle :
        (free : Bool)
        → Settled
        → Returns (IsRemoved m want free ys p v zs) (and_then (discard free p g) (λ _. pure left))
    unfolding discard write
    settle true d = rw (efree-ok d.still.2) (
        returns (record {
          queue = record {
            chain = frame-write g p none null (ys ++ zs) null d.chain out_of_rest;
            head = d.head;
            tail = d.tail;
            size = counted d;
          };
          value = d.value;
          returned = counted d;
          freed = λ _. ground (arith, ==_self p);
          kept = λ e. cc;
          same = λ a o. ground (arith, d.same a);
          refs = d.refs;
        }))
    settle false d = returns (record {
      queue = record { chain = d.chain; head = d.head; tail = d.tail; size = counted d };
      value = d.value;
      returned = counted d;
      freed = λ e. cc;
      kept = λ _. d.still;
      same = λ a o. ground (arith, d.same a);
      refs = d.refs;
    })

  finish :
      (want free : Bool) (q' : Queue) (g : Mem)
      → (want ≡ false → 0 < m.refs v)
      → Detached m q.size ys p v zs q' g
      → Returns
          (IsRemoved m want free ys p v zs)
          (and_then (hand_out want p g) (λ w. discard free p >> pure (left want q' g w)))
  unfolding hand_out set_count
  finish true free q' g held d = rw (load-ok d.still.2) (
      settle true q' g (some v) free (record {
        chain = d.chain;
        head = d.head;
        tail = d.tail;
        size = d.size;
        still = d.still;
        same = d.frames.same;
        value = refl;
        refs = d.frames.refs;
      }))
  finish false free q' g held d =
      let (n, b, h) = d.still in
      rw (load-ok h, dtor-ok v g (rw (d.frames.refs v) (held refl)))
        (settle false q' (set_count g v (g.refs v - 1)) none free (record {
          chain = frame g _ null (ys ++ zs) null d.chain (λ a i. refl);
          head = d.head;
          tail = d.tail;
          size = d.size;
          still = (n, b, record { ne_null = h.ne_null; holds = h.holds });
          same = d.frames.same;
          value = refl;
          refs = λ x. ground (arith, d.frames.refs x, d.frames.refs v);
        }))

  -- Removing an item, wherever it stands, leaves the queue of the others in their order: its value
  -- is handed out with its reference, or one reference to it is released; the item is freed exactly
  -- when that is asked for; the size returned is the number of items left, modulo 2 ^ 64; and
  -- nothing outside the queue is written. A value to be released must hold a reference.
  pub remove_lem :
      (mode : Mode)
      → (mode.want ≡ false → 0 < m.refs v)
      → Returns (IsRemoved m mode.want mode.free ys p v zs) (remove q p mode m)
  unfolding remove
  remove_lem mode held =
      let s = split m null ys ((p, v) ∷ zs) null is.chain in
      rw (not_null s.back.0) (
        Returns.bind (detach_lem m q p v ys zs is) λ q' g d. finish mode.want mode.free q' g held d)
