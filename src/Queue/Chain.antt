-- ===== src/Queue/Chain.antt =====
-- Doubly linked chains of items in the heap, and their footprints: what a queue of src/queue.c
-- stands for.
use mathlib.Core.Bool.{or_assoc, false≢true}
use ext_pmmpthread.Prelude.{
  ◌≡◌, ◌≢◌, refl, sym, ◌∙◌, inl, inr, Bool, true, false, ◌||◌, Option, some, ◌==◌, ==_self, ==_iff,
  Bool-cases, List, [], ◌∷◌, ◌++◌, arith,
}
use ext_pmmpthread.Memory.{Ptr, Value, Item, item, Mem, write}
use ext_pmmpthread.Memory.Cells.{Holds, Holds-write_self}

-- Address and value of each item, in order.
abbrev pub Cells : Type 0
Cells = List (Ptr × Value)

-- The address at which a chain that ends at `stop` begins.
abbrev pub first_of : Cells → Ptr → Ptr
first_of [] stop = stop
first_of ((p, v) ∷ xs) stop = p

-- Whether an item of the chain lies at the address.
abbrev pub has : Ptr → Cells → Bool
has p [] = false
has p (x ∷ xs) = (p == x.0) || has p xs

-- The address of its last item, for a chain that comes after `prev`.
abbrev pub last_of : Ptr → Cells → Ptr
last_of prev [] = prev
last_of prev ((p, v) ∷ xs) = last_of p xs

infix 40 ◌∉◌
abbrev pub ◌∉◌ : Ptr → Cells → Type 0
p ∉ xs = has p xs ≡ false

-- The items of `xs` are distinct and linked both ways, from behind `prev` to `stop`.
abbrev pub Chain : Mem → Ptr → Cells → Ptr → Type 0
Chain m prev [] stop = Unit
Chain m prev ((p, v) ∷ xs) stop =
    Holds m p (item (first_of xs stop) prev v) × (p ∉ xs) × Chain m p xs stop

-- Two heaps agree at the addresses that `xs` does not use.
abbrev pub SameOutside : Cells → Mem → Mem → Type 0
SameOutside xs m g = (p : Ptr) → p ∉ xs → g.cell p ≡ m.cell p

infix 40 ◌∈◌
abbrev pub ◌∈◌ : Ptr → Cells → Type 0
p ∈ xs = has p xs ≡ true

abbrev pub Disjoint : Cells → Cells → Type 0
Disjoint ys zs = (p : Ptr) → p ∈ ys → p ∉ zs

pub has-append : (p : Ptr) (ys zs : Cells) → has p (ys ++ zs) ≡ (has p ys || has p zs)
has-append p [] zs = refl
has-append p (y ∷ ys) zs = rw (has-append p ys zs, or_assoc)

pub last_of-append :
    (prev : Ptr) (xs ys : Cells) → last_of prev (xs ++ ys) ≡ last_of (last_of prev xs) ys
last_of-append prev [] ys = refl
last_of-append prev ((p, v) ∷ xs) ys = last_of-append p xs ys

pub first_of-append :
    (xs ys : Cells) (stop : Ptr) → first_of (xs ++ ys) stop ≡ first_of xs (first_of ys stop)
first_of-append [] ys stop = refl
first_of-append (x ∷ xs) ys stop = refl

-- A non-empty chain ends in one of its own items.
pub last_of-mem :
    (prev p : Ptr) (v : Value) (xs : Cells) → last_of prev ((p, v) ∷ xs) ∈ ((p, v) ∷ xs)
last_of-mem prev p v [] = ground (arith, ==_self p)
last_of-mem prev p v ((q, w) ∷ xs) = ground (arith, last_of-mem p q w xs)

pub first_of-mem :
    (ys : Cells) (t : Ptr) (u : Value) (stop : Ptr)
    → first_of (ys ++ (t, u) ∷ []) stop ∈ (ys ++ (t, u) ∷ [])
first_of-mem [] t u stop = ground (arith, ==_self t)
first_of-mem ((p, v) ∷ ys) t u stop = ground (arith, ==_self p)

pub ne_of_mem : (a b : Ptr) (xs : Cells) → a ∈ xs → b ∉ xs → a ≢ b
ne_of_mem a b xs i o e = false≢true (sym o ∙ (rw e at i))

pub not-mem_of_apart : (a : Ptr) (xs ys : Cells) → Disjoint xs ys → a ∈ ys → a ∉ xs
not-mem_of_apart a xs ys apart i = elim (Bool-cases (has a xs)) [
  | inl here ↦ absurd (false≢true (sym (apart a here) ∙ i))
  | inr gone ↦ gone
]

-- A chain survives any change that spares its own addresses.
pub frame :
    (m g : Mem) (prev : Ptr) (xs : Cells) (stop : Ptr)
    → Chain m prev xs stop
    → ((a : Ptr) → a ∈ xs → g.cell a ≡ m.cell a)
    → Chain g prev xs stop
frame m g prev [] stop c same = tt
frame m g prev ((p, v) ∷ xs) stop (h, out, c) same = (
  record { ne_null = h.ne_null; holds = ground (arith, same p, ==_self p, h.holds) },
  out,
  frame m g p xs stop c λ a i. same a (ground arith),
)

pub frame-write :
    (m : Mem) (a : Ptr) (c : Option Item) (prev : Ptr) (xs : Cells) (stop : Ptr)
    → Chain m prev xs stop
    → a ∉ xs
    → Chain (write m a c) prev xs stop
unfolding write
frame-write m a c prev xs stop ch out = frame m _ prev xs stop ch λ b i. ground arith

-- Two chains that meet make one, and one chain comes apart anywhere.
pub join :
    (m : Mem) (prev : Ptr) (xs ys : Cells) (stop : Ptr)
    → Chain m prev xs (first_of ys stop)
    → Chain m (last_of prev xs) ys stop
    → Disjoint xs ys
    → Chain m prev (xs ++ ys) stop
join m prev [] ys stop c d apart = d
join m prev ((p, v) ∷ xs) ys stop (h, out, c) d apart = (
  rw (first_of-append xs ys stop) h,
  rw (has-append p xs ys, out) (apart p (ground (arith, ==_self p))),
  join m p xs ys stop c d λ a i. apart a (ground arith),
)

pub record Split (m : Mem) (prev : Ptr) (xs ys : Cells) (stop : Ptr) : Type 0 where
  pub front : Chain m prev xs (first_of ys stop)
  pub back : Chain m (last_of prev xs) ys stop
  pub apart : Disjoint xs ys

pub split :
    (m : Mem) (prev : Ptr) (xs ys : Cells) (stop : Ptr)
    → Chain m prev (xs ++ ys) stop
    → Split m prev xs ys stop
split m prev [] ys stop c = record { front = tt; back = c; apart = λ a i. cc }
split m prev ((p, v) ∷ xs) ys stop (h, out, c) =
    let s = split m p xs ys stop c in
    record {
      front = (rw (← first_of-append xs ys stop) h, ground (arith, has-append p xs ys), s.front);
      back = s.back;
      apart = λ a i. ground (arith, s.apart a, has-append p xs ys, ==_iff a p);
    }

-- A new predecessor for the first item.
pub set_first :
    (m : Mem) (prev prev' p : Ptr) (v : Value) (xs : Cells) (stop : Ptr)
    → Chain m prev ((p, v) ∷ xs) stop
    → Chain (write m p (some (item (first_of xs stop) prev' v))) prev' ((p, v) ∷ xs) stop
set_first m prev prev' p v xs stop (h, out, c) =
    (Holds-write_self h _, out, frame-write m p _ p xs stop c out)

-- A new successor for the last item.
pub set_last :
    (m : Mem) (prev : Ptr) (xs : Cells) (p : Ptr) (v : Value) (stop stop' : Ptr)
    → Chain m prev (xs ++ (p, v) ∷ []) stop
    → Chain (write m p (some (item stop' (last_of prev xs) v))) prev (xs ++ (p, v) ∷ []) stop'
set_last m prev xs p v stop stop' c =
    join _ prev xs ((p, v) ∷ []) stop'
      (frame-write m p _ prev xs p front (ground (arith, apart p, Bool-cases (has p xs))))
      (Holds-write_self back.0 _, refl, tt) apart
  where
    open (split m prev xs ((p, v) ∷ []) stop c) use {front, back, apart}
