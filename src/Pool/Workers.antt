-- ===== src/Pool/Workers.antt =====
-- Arrays of workers whose keys count from a number on, in order (src/classes/pool.c).
use ext_pmmpthread.Prelude.{
  ℕ, suc, ◌+◌, ◌<◌, ◌≤◌, ◌≡◌, ◌≢◌, refl, subst, ap, ◌∙◌, zero, false, none, some, List, [], ◌∷◌,
  ◌++◌, ◌==◌, length, get_elem?, arith,
}
use ext_pmmpthread.Pool.{Array, index_find, index_update, index_del}

module _ {W : Type 0} where
  abbrev pub Numbered : ℕ → Array W → Type 0
  Numbered n [] = Unit
  Numbered n ((k, w) ∷ ws) = (k ≡ n) × Numbered (suc n) ws

  pub Numbered-prefix : (n : ℕ) (ws vs : Array W) → Numbered n (ws ++ vs) → Numbered n ws
  Numbered-prefix n [] vs h = tt
  Numbered-prefix n ((k, w) ∷ ws) vs (e, h) = (e, Numbered-prefix (suc n) ws vs h)

  pub Numbered-snoc :
      (n : ℕ) (ws : Array W) (w : W) → Numbered n ws → Numbered n (ws ++ (n + length ws, w) ∷ [])
  Numbered-snoc n [] w h = (omega arith, tt)
  Numbered-snoc n ((k, v) ∷ ws) w (e, h) = (
    e,
    subst (λ i. Numbered (suc n) (ws ++ (i, w) ∷ [])) (omega arith) (Numbered-snoc (suc n) ws w h),
  )

  -- A key past the end, or before the start, is not there.
  pub find-outside :
      (n k : ℕ) (ws : Array W) → Numbered n ws → n + length ws ≤ k → index_find ws k ≡ none
  find-outside n k [] h l = refl
  find-outside n k ((j, w) ∷ ws) (e, h) l = ground (arith, find-outside (suc n) k ws h)

  pub find-inside :
      (n k : ℕ) (ws : Array W) → Numbered n ws → n ≤ k → k < n + length ws → index_find ws k ≢ none
  find-inside n k [] h l g = ground arith
  find-inside n k ((j, w) ∷ ws) (e, h) l g = ground (arith, find-inside (suc n) k ws h)

  pub update-absent :
      (k : ℕ) (w : W) (ws : Array W)
      → index_find ws k ≡ none
      → index_update ws k w ≡ ws ++ (k, w) ∷ []
  update-absent k w [] h = refl
  update-absent k w ((j, v) ∷ ws) h = ground (arith, update-absent k w ws)

  pub del-absent : (k : ℕ) (ws : Array W) → index_find ws k ≡ none → index_del ws k ≡ ws
  del-absent k [] h = refl
  del-absent k ((j, v) ∷ ws) h = ground (arith, del-absent k ws)

  pub find-last :
      (n : ℕ) (ws : Array W) (k : ℕ) (w : W)
      → Numbered n (ws ++ (k, w) ∷ [])
      → (k ≡ n + length ws)
        × (index_find (ws ++ (k, w) ∷ []) (n + length ws) ≡ some w)
        × (index_del (ws ++ (k, w) ∷ []) (n + length ws) ≡ ws)
  find-last n [] k w (e, h) = ground arith
  find-last n ((j, v) ∷ ws) k w (e, h) = ground (arith, find-last (suc n) ws k w h)

  -- The workers in their order, without the keys.
  abbrev pub by_number : Array W → List W
  by_number [] = []
  by_number ((k, w) ∷ ws) = w ∷ by_number ws

  pub by_number-snoc :
      (ws : Array W) (k : ℕ) (w : W) → by_number (ws ++ (k, w) ∷ []) ≡ by_number ws ++ w ∷ []
  by_number-snoc [] k w = refl
  by_number-snoc ((j, v) ∷ ws) k w = ap (v ∷◌) (by_number-snoc ws k w)

  pub find-by_number :
      (n k : ℕ) (ws : Array W) → Numbered n ws → index_find ws (n + k) ≡ get_elem? (by_number ws) k
  find-by_number n k [] h = refl
  find-by_number n zero ((j, v) ∷ ws) (e, h) = ground (arith, e)
  find-by_number n (suc k) ((j, v) ∷ ws) (e, h) =
      let later : (j == n + suc k) ≡ false = ground (arith, e) in
      rw later (ap (index_find ws) (omega arith) ∙ find-by_number (suc n) k ws h)
