-- ===== src/Queue/Detach.antt =====
-- Taking an item out of the links of a queue, in `pmmpthread_queue_remove`.
use mathlib.Core.List.{append-nil}
use ext_pmmpthread.Prelude.{
  ℕ, ◌≡◌, refl, sym, ◌∙◌, ◌≢◌, ==_iff, ==_self, ==_ne, false, some, ◌==◌, [], ◌∷◌, ◌++◌, inl, inr,
  Bool-cases, arith,
}
use ext_pmmpthread.Memory.{Ptr, null, Value, item, Mem, write}
use ext_pmmpthread.Memory.Cells.{Holds, load-ok, store-ok, Holds-write_ne}
use ext_pmmpthread.Memory.Returns.{Returns, returns}
use ext_pmmpthread.Queue.{Queue, detach}
use ext_pmmpthread.Queue.Chain.{
  Cells, has, ◌∈◌, ◌∉◌, first_of, last_of, Chain, has-append, last_of-append, first_of-append,
  frame-write, join, split, Split, set_first, set_last, last_of-mem, first_of-mem, ne_of_mem,
  not-mem_of_apart,
}
use ext_pmmpthread.Queue.Refines.{IsQueue, Frames, snoc_view}

-- What `detach` leaves: the links of the other items, the removed item with its value, and the size
-- that is still to be counted down.
pub record Detached (m : Mem) (count : ℕ) (ys : Cells) (p : Ptr) (v : Value) (zs : Cells)
    (q : Queue) (g : Mem) : Type 0 where
  pub chain : Chain g null (ys ++ zs) null
  pub head : q.head ≡ first_of (ys ++ zs) null
  pub tail : q.tail ≡ last_of null (ys ++ zs)
  pub size : q.size ≡ count
  pub still : (n b : Ptr) × Holds g p (item n b v)
  pub frames : Frames (ys ++ zs) m g

module _ (m : Mem) (q : Queue) (p : Ptr) (v : Value) where
  detach_only : IsQueue m q ((p, v) ∷ []) → Returns (Detached m q.size [] p v []) (detach q p m)
  unfolding detach
  detach_only is =
      rw (is.head, is.tail, ==_self p)
        (returns (record {
          chain = tt;
          head = refl;
          tail = refl;
          size = refl;
          still = (null, null, is.chain.0);
          frames = record { same = λ a o. refl; refs = λ w. refl };
        }))

  detach_first :
      (n : Ptr) (w : Value) (zs : Cells)
      → IsQueue m q ((p, v) ∷ (n, w) ∷ zs)
      → Returns (Detached m q.size [] p v ((n, w) ∷ zs)) (detach q p m)
  unfolding detach write
  detach_first n w zs is =
      let (hp, out, c) = is.chain in
      let hn = c.0 in
      let ne : p ≢ n = ground arith in
      let other : (q.tail == p) ≡ false =
        ground (arith, is.tail, last_of-mem p n w zs, ==_iff q.tail p, Bool-cases (q.tail == p)) in
      rw (is.head, ==_self p, other, load-ok hp, load-ok hn, store-ok hn)
        (returns (record {
          chain = set_first m p null n w zs null c;
          head = refl;
          tail = is.tail;
          size = refl;
          still = (n, null, Holds-write_ne hp n _ ne);
          frames = record { same = λ a o. ground arith; refs = λ x. refl };
        }))

  -- The item after `ys`, taken apart.
  record Before (ys : Cells) (t : Ptr) (u : Value) (zs : Cells) : Type 0 where
    inner : Split m null (ys ++ (t, u) ∷ []) ((p, v) ∷ zs) null
    here : Holds m p (item (first_of zs null) t v)
    rest : Chain m p zs null
    before : Holds m t (item p (last_of null ys) u)
    head_ne : (q.head == p) ≡ false
    ne : t ≢ p
    fresh : p ∉ (ys ++ (t, u) ∷ [])

  before :
      (ys : Cells) (t : Ptr) (u : Value) (zs : Cells)
      → IsQueue m q ((ys ++ (t, u) ∷ []) ++ (p, v) ∷ zs)
      → Before ys t u zs
  before ys t u zs is =
      let s = split m null (ys ++ (t, u) ∷ []) ((p, v) ∷ zs) null is.chain in
      let s' = split m null ys ((t, u) ∷ []) p s.front in
      let out : p ∉ (ys ++ (t, u) ∷ []) =
        ground (arith, s.apart p, ==_self p, Bool-cases (has p (ys ++ (t, u) ∷ []))) in
      record {
        inner = s;
        here = rw (last_of-append null ys ((t, u) ∷ [])) at s.back.0;
        rest = s.back.2;
        before = s'.back.0;
        head_ne = ground (
          arith,
          is.head ∙ first_of-append (ys ++ (t, u) ∷ []) ((p, v) ∷ zs) null,
          first_of-mem ys t u p,
          Bool-cases (q.head == p),
          ==_iff q.head p,
        );
        ne = λ e. ground (arith, has-append t ys ((t, u) ∷ []), ==_self t);
        fresh = out;
      }

  detach_last :
      (ys : Cells) (t : Ptr) (u : Value)
      → IsQueue m q ((ys ++ (t, u) ∷ []) ++ (p, v) ∷ [])
      → Returns (Detached m q.size (ys ++ (t, u) ∷ []) p v []) (detach q p m)
  unfolding detach write
  detach_last ys t u is =
      let b = before ys t u [] is in
      let at_tail = is.tail ∙ last_of-append null (ys ++ (t, u) ∷ []) ((p, v) ∷ []) in
      let still =
        Holds-write_ne b.here t (some (item null (last_of null ys) u)) λ e. b.ne (sym e) in
      rw (b.head_ne, at_tail, ==_self p, load-ok b.here, load-ok b.before, store-ok b.before)
        (returns (record {
          chain = rw append-nil (set_last m null ys t u p null b.inner.front);
          head = rw (is.head, append-nil) (simp first_of-append);
          tail = rw append-nil (sym (last_of-append null ys ((t, u) ∷ [])));
          size = refl;
          still = (null, t, still);
          frames = record {
            same = λ a o.
                ground (arith, has-append a (ys ++ (t, u) ∷ []) [], has-append a ys ((t, u) ∷ []));
            refs = λ x. refl;
          };
        }))

  detach_between :
      (ys : Cells) (t : Ptr) (u : Value) (n : Ptr) (w : Value) (zs : Cells)
      → IsQueue m q ((ys ++ (t, u) ∷ []) ++ (p, v) ∷ (n, w) ∷ zs)
      → Returns (Detached m q.size (ys ++ (t, u) ∷ []) p v ((n, w) ∷ zs)) (detach q p m)
  unfolding detach write
  detach_between ys t u n w zs is =
      let b = before ys t u ((n, w) ∷ zs) is in
      let xs = ys ++ (t, u) ∷ [] in
      let (hn, out, rest) = b.rest in
      let apart = b.inner.apart in
      let mem : t ∈ xs = ground (arith, has-append t ys ((t, u) ∷ []), ==_self t) in
      let out_n : n ∉ xs =
        not-mem_of_apart n xs ((p, v) ∷ (n, w) ∷ zs) apart (ground (arith, ==_self n)) in
      let ne = ne_of_mem t n xs mem out_n in
      let out_t : t ∉ ((n, w) ∷ zs) = ground (arith, apart t mem) in
      let at_tail = is.tail ∙ last_of-append null xs ((p, v) ∷ (n, w) ∷ zs) in
      let out_p = b.inner.back.1 in
      let tail_ne : (q.tail == p) ≡ false =
        ==_ne (λ e. ne_of_mem _ p ((n, w) ∷ zs) (last_of-mem p n w zs) out_p (sym at_tail ∙ e)) in
      let n' = item (first_of zs null) t w in
      let t' = item n (last_of null ys) u in
      let ht = Holds-write_ne b.before n (some n') ne in
      let hp =
        Holds-write_ne
          (Holds-write_ne b.here n (some n')
            (λ e. ne_of_mem n p ((n, w) ∷ zs) (ground (arith, ==_self n)) out_p (sym e)))
          t (some t') (λ e. b.ne (sym e)) in
      rw (b.head_ne, tail_ne, load-ok b.here, load-ok hn, store-ok hn, load-ok ht, store-ok ht)
        (returns (record {
          chain =
              join _ null xs ((n, w) ∷ zs) null
                (set_last _ null ys t u p n
                  (frame-write m n (some n') null xs p b.inner.front out_n))
                (rw (last_of-append null ys ((t, u) ∷ [])) (
                  frame-write _ t (some t') t ((n, w) ∷ zs) null
                    (set_first m p t n w zs null b.rest) out_t))
                (λ a i. ground (arith, apart a i));
          head = rw is.head (simp first_of-append);
          tail = at_tail ∙ sym (last_of-append null xs ((n, w) ∷ zs));
          size = refl;
          still = (n, t, hp);
          frames = record {
            same =
                λ a o. ground (arith, has-append a xs ((n, w) ∷ zs), has-append a ys ((t, u) ∷ []));
            refs = λ x. refl;
          };
        }))

  -- Wherever the item stands, its neighbours are linked to one another.
  pub detach_lem :
      (ys zs : Cells)
      → IsQueue m q (ys ++ (p, v) ∷ zs)
      → Returns (Detached m q.size ys p v zs) (detach q p m)
  detach_lem ys zs is = elim (snoc_view ys) [
    | inl e ↦ rw e (at_first zs (rw e at is))
    | inr (ys', t, u, e) ↦ rw e (after ys' t u zs (rw e at is))
  ]
    where
      at_first :
          (zs : Cells)
          → IsQueue m q ((p, v) ∷ zs)
          → Returns (Detached m q.size [] p v zs) (detach q p m)
      at_first [] is = detach_only is
      at_first ((n, w) ∷ zs) is = detach_first n w zs is

      after :
          (ys : Cells) (t : Ptr) (u : Value) (zs : Cells)
          → IsQueue m q ((ys ++ (t, u) ∷ []) ++ (p, v) ∷ zs)
          → Returns (Detached m q.size (ys ++ (t, u) ∷ []) p v zs) (detach q p m)
      after ys t u [] is = detach_last ys t u is
      after ys t u ((n, w) ∷ zs) is = detach_between ys t u n w zs is
