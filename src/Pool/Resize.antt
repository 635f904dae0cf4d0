-- ===== src/Pool/Resize.antt =====
-- The resizing of a pool: when it ends, and what it leaves (`Pool::resize` of
-- src/classes/pool.c).
use ext_pmmpthread.Prelude.{
  ℕ, zero, suc, ◌+◌, ◌<◌, ◌≤◌, ◌≡◌, refl, sym, ◌∙◌, ap, subst, ◌⊎◌, inl, inr, none, some, Option,
  List, [], ◌∷◌, ◌++◌, length, length-append, length-take, length-drop, take-all, drop-all,
  Bool-cases, ltb, ◌-◌, take, drop, take-append-drop, ℤ, pos, negsuc, arith, ==_self, ==_ne, ◌≢◌,
  true, false, same, below,
}
use mathlib.Core.List.{append-nil, append_assoc}
use ext_pmmpthread.Pool.{
  Array, index_find, index_del, Calls, Pool, Resized, ended, out_of_fuel, resize, resize_loop,
  top_key, shut_found, shrink,
}
use ext_pmmpthread.Pool.Workers.{Numbered, Numbered-prefix, find-last, del-absent}

-- A list is empty or has a last element.
snoc-cases :
    {A : Type 0} (xs : List A) → (xs ≡ []) ⊎ ((ys : List A) × ((y : A) × (xs ≡ ys ++ y ∷ [])))
snoc-cases [] = inl refl
snoc-cases (x ∷ xs) = elim (snoc-cases xs) [
  | inl e ↦ inr ([], (x, ap (◌∷◌ x) e))
  | inr (ys, (y, e)) ↦ inr (x ∷ ys, (y, ap (◌∷◌ x) e))
]

module _ {W T S : Type 0} (C : Calls W T S) where
  -- The workers shut down, the last one first.
  abbrev pub shut_last_first : Array W → S → S
  shut_last_first [] s = s
  shut_last_first ((k, w) ∷ ws) s = C.shutdown w (shut_last_first ws s)

  shut_last_first-snoc :
      (ws : Array W) (k : ℕ) (w : W) (s : S)
      → shut_last_first (ws ++ (k, w) ∷ []) s ≡ shut_last_first ws (C.shutdown w s)
  shut_last_first-snoc [] k w s = refl
  shut_last_first-snoc ((j, v) ∷ ws) k w s = ap (C.shutdown v) (shut_last_first-snoc ws k w s)

  top_key-snoc : (ws : Array W) (x : ℕ × W) → top_key C (length (ws ++ x ∷ [])) ≡ length ws
  top_key-snoc ws x =
      let e : length (ws ++ x ∷ []) ≡ suc (length ws) = omega (arith, length-append ws (x ∷ [])) in
      ap (top_key C) e

  -- The end of a round, with the workers that are left.
  abbrev after : ℕ → ℤ → Array W → S → Resized W S
  after fuel m ws s = elim (same (length ws) m) [
    | true ↦ ended ws s
    | false ↦ resize_loop C fuel m ws s
  ]

  -- One round of the loop takes the last worker.
  round_lem :
      (fuel : ℕ) (m : ℤ) (ws : Array W) (k : ℕ) (w : W) (s : S)
      → Numbered 0 (ws ++ (k, w) ∷ [])
      → resize_loop C (suc fuel) m (ws ++ (k, w) ∷ []) s ≡ after fuel m ws (C.shutdown w s)
  unfolding resize_loop
  round_lem fuel m ws k w s h =
      let (e, found, gone) = find-last 0 ws k w h in
      let v = ws ++ (k, w) ∷ [] in
      ap (λ key. after fuel m (index_del v key) (shut_found C (index_find v key) s))
        (top_key-snoc ws (k, w) ∙ omega arith)
      ∙ ap (λ o. after fuel m (index_del v (0 + length ws)) (shut_found C o s)) found
      ∙ ap (λ u. after fuel m u (C.shutdown w s)) gone

  ended_lem : (fuel : ℕ) (ws : Array W) (s : S) → after fuel (pos (length ws)) ws s ≡ ended ws s
  ended_lem fuel ws s =
      ap
        (λ b. elim b as (λ _. Resized W S) [
          | true ↦ ended ws s
          | false ↦ resize_loop C fuel (pos (length ws)) ws s
        ])
        (==_self (length ws))

  rest_lem :
      (fuel n : ℕ) (keep ys : Array W) (s : S)
      → length ys ≡ n
      → ((j : ℕ)
          → n ≡ suc j
          → resize_loop C fuel (pos (length keep)) (keep ++ ys) s
            ≡ ended keep (shut_last_first ys s))
      → after fuel (pos (length keep)) (keep ++ ys) s ≡ ended keep (shut_last_first ys s)
  rest_lem fuel zero keep [] s e ih =
      ap (λ v. after fuel (pos (length keep)) v s) (append-nil keep) ∙ ended_lem fuel keep s
  rest_lem fuel zero keep (y ∷ ys) s e ih = ground arith
  rest_lem fuel (suc n) keep ys s e ih =
      let more : length (keep ++ ys) ≢ length keep = λ q. omega (arith, length-append keep ys) in
      ap
        (λ b. elim b as (λ _. Resized W S) [
          | true ↦ ended (keep ++ ys) s
          | false ↦ resize_loop C fuel (pos (length keep)) (keep ++ ys) s
        ])
        (==_ne more)
      ∙ ih n refl

  -- Enough rounds take the workers after the first `length keep`, which are at least one.
  loop_lem :
      (n fuel : ℕ) (keep gone : Array W) (s : S)
      → length gone ≡ suc n
      → suc n ≤ fuel
      → Numbered 0 (keep ++ gone)
      → resize_loop C fuel (pos (length keep)) (keep ++ gone) s
        ≡ ended keep (shut_last_first gone s)
  loop_lem n zero keep gone s e l h = ground arith
  loop_lem n (suc fuel) keep gone s e l h = elim (snoc-cases gone) [
    | inl none_gone ↦ ground arith
    | inr (ys, ((k, w), last)) ↦
        let moved : keep ++ gone ≡ (keep ++ ys) ++ (k, w) ∷ [] =
          ap (keep ++◌) last ∙ sym (append_assoc keep ys ((k, w) ∷ [])) in
        let h' = subst (Numbered 0) moved h in
        let len : length ys ≡ n =
          omega (arith, e, sym (ap length last) ∙ refl, length-append ys ((k, w) ∷ [])) in
        ap (λ v. resize_loop C (suc fuel) (pos (length keep)) v s) moved
        ∙ round_lem fuel (pos (length keep)) (keep ++ ys) k w s h'
        ∙ rest_lem fuel n keep ys (C.shutdown w s) len (λ j q.
          loop_lem j fuel keep ys (C.shutdown w s) (len ∙ q) (omega arith)
            (Numbered-prefix 0 (keep ++ ys) ((k, w) ∷ []) h'))
        ∙ ap (ended keep)
            (sym (shut_last_first-snoc ys k w s) ∙ sym (ap (λ g. shut_last_first g s) last))
  ]

  -- What becomes of the pool after `shrink`.
  abbrev resized : ℤ → Pool W → Option (Array W × S) → Option (Pool W × S)
  resized newsize p none = none
  resized newsize p (some (ws, s)) = some (record p { size = newsize; workers = some ws }, s)

  resize-shrink :
      (fuel : ℕ) (newsize : ℤ) (p : Pool W) (ws : Array W) (s : S)
      → p.workers ≡ some ws
      → resize C fuel newsize p s ≡ resized newsize p (shrink C fuel newsize ws s)
  unfolding resize
  resize-shrink fuel newsize p ws s e =
      ap
        (λ o. elim o as (λ _. Option (Pool W × S)) [
          | none ↦ some (record p { size = newsize }, s)
          | some ws ↦ resized newsize p (shrink C fuel newsize ws s)
        ])
        e

  shrink_lem :
      (fuel n : ℕ) (ws : Array W) (s : S)
      → Numbered 0 ws
      → length ws ≤ fuel
      → shrink C fuel (pos n) ws s ≡ some (take n ws, shut_last_first (drop n ws) s)
  unfolding shrink
  shrink_lem fuel n ws s h l = elim (Bool-cases (ltb n (length ws))) [
    | inl few ↦
        let k = length ws - suc n in
        let gone : length (drop n ws) ≡ suc k = ground (arith, length-drop n ws) in
        let kept : length (take n ws) ≡ n = ground (arith, length-take n ws) in
        let ran =
          loop_lem k fuel (take n ws) (drop n ws) s gone (omega (arith, length-drop n ws))
            (subst (Numbered 0) (sym (take-append-drop n ws)) h) in
        let loop : resize_loop C fuel (pos n) ws s
            ≡ ended (take n ws) (shut_last_first (drop n ws) s) =
          subst
            (λ m.
              resize_loop C fuel (pos m) ws s ≡ ended (take n ws) (shut_last_first (drop n ws) s))
            kept
            (ap (λ v. resize_loop C fuel (pos (length (take n ws))) v s)
                (sym (take-append-drop n ws))
              ∙ ran) in
        ground (arith, loop, few)
    | inr enough ↦
        let all : length ws ≤ n = ground arith in
        rw (shrink, enough, take-all n ws all, drop-all n ws all) refl
  ]

  negative-Endless :
      (fuel n : ℕ) (ws : Array W) (s : S) → resize_loop C fuel (negsuc n) ws s ≡ out_of_fuel
  unfolding resize_loop
  negative-Endless zero n ws s = refl
  negative-Endless (suc fuel) n ws s =
      negative-Endless fuel n (index_del ws (top_key C (length ws)))
        (shut_found C (index_find ws (top_key C (length ws))) s)

  gap-Endless :
      (fuel n : ℕ) (ws : Array W) (s : S)
      → n < length ws
      → index_find ws (top_key C (length ws)) ≡ none
      → resize_loop C fuel (pos n) ws s ≡ out_of_fuel
  unfolding resize_loop
  gap-Endless zero n ws s few gap = refl
  gap-Endless (suc fuel) n ws s few gap =
      let more : length ws ≢ n = λ q. omega arith in
      ap (λ o. after fuel (pos n) (index_del ws (top_key C (length ws))) (shut_found C o s)) gap
      ∙ ap (λ v. after fuel (pos n) v s) (del-absent (top_key C (length ws)) ws gap)
      ∙ ap
          (λ b. elim b as (λ _. Resized W S) [
            | true ↦ ended ws s
            | false ↦ resize_loop C fuel (pos n) ws s
          ])
          (==_ne more)
      ∙ gap-Endless fuel n ws s few gap

  shrink-Endless :
      (fuel : ℕ) (m : ℤ) (ws : Array W) (s : S)
      → below m (length ws) ≡ true
      → resize_loop C fuel m ws s ≡ out_of_fuel
      → shrink C fuel m ws s ≡ none
  unfolding shrink
  shrink-Endless fuel m ws s few loop = rw (shrink, few, loop) refl

  -- A resize to a number that is not negative ends after a round for each worker at most, and leaves
  -- that many workers: the workers from that key on are shut down, the last one first, and the others
  -- stay, when the workers' keys count up from 0.
  pub resize_lem :
      (fuel n : ℕ) (p : Pool W) (ws : Array W) (s : S)
      → p.workers ≡ some ws
      → Numbered 0 ws
      → length ws ≤ fuel
      → resize C fuel (pos n) p s
        ≡ some
            (record p { size = pos n; workers = some (take n ws) }, shut_last_first (drop n ws) s)
  resize_lem fuel n p ws s e h l =
      resize-shrink fuel (pos n) p ws s e ∙ ap (resized (pos n) p) (shrink_lem fuel n ws s h l)

  -- A resize never ends, whatever number of rounds it is given, if the number asked for is negative,
  -- or if it is less than the number of workers and no worker has the last key.
  pub resize-Endless :
      (fuel : ℕ) (newsize : ℤ) (p : Pool W) (ws : Array W) (s : S)
      → p.workers ≡ some ws
      → ((n : ℕ) × (newsize ≡ negsuc n))
        ⊎ ((n : ℕ) × ((newsize ≡ pos n)
              × ((n < length ws) × (index_find ws (top_key C (length ws)) ≡ none))))
      → resize C fuel newsize p s ≡ none
  resize-Endless fuel newsize p ws s e (inl (n, q)) =
      resize-shrink fuel newsize p ws s e
      ∙ ap (λ m. resized newsize p (shrink C fuel m ws s)) q
      ∙ ap (resized newsize p)
          (shrink-Endless fuel (negsuc n) ws s refl (negative-Endless fuel n ws s))
  resize-Endless fuel newsize p ws s e (inr (n, (q, (few, gap)))) =
      resize-shrink fuel newsize p ws s e
      ∙ ap (λ m. resized newsize p (shrink C fuel m ws s)) q
      ∙ ap (resized newsize p)
          (shrink-Endless fuel (pos n) ws s (ground arith) (gap-Endless fuel n ws s few gap))
