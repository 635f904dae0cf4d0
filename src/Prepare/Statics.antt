-- ===== src/Prepare/Statics.antt =====
-- Which slot of a copied class holds what, by the loops of src/prepare.c.
use ext_pmmpthread.Prelude.{
  ℕ, zero, suc, ◌≤◌, ◌<◌, ◌≡◌, refl, sym, ap, ◌∙◌, true, List, [], ◌∷◌, ltb, leb, ◌==◌,
  if◌then◌else◌, Bool-cases, inl, inr, arith,
}
use ext_pmmpthread.Memory.{update}
use ext_pmmpthread.Store.Types.{Zval}
use ext_pmmpthread.Prepare.Classes.{
  Slot, raw, copied, indirect, Ancestor, count_of, fill, left_over, indirect_all,
  prepare_class_statics,
}

-- A class has the slots of its parent, and a class with slots has a table.
abbrev pub IsChain : ℕ → List Ancestor → Type 0
IsChain n [] = Unit
IsChain n (p ∷ ps) =
    (p.static_count ≤ n) × (((0 < p.static_count) → p.has_table ≡ true) × IsChain p.static_count ps)

-- The ancestor that declares a slot: the last one that has it.
abbrev pub declared_by : List Ancestor → (d i : ℕ) → ℕ
declared_by [] d i = d
declared_by (p ∷ ps) d i =
    let further = declared_by ps (suc d) i in if ltb i (count_of ps) then further else d

fill_above : (f : ℕ → Slot) (n end : ℕ) (t : ℕ → Slot) (i : ℕ) → n ≤ i → fill f n end t i ≡ t i
fill_above f zero end t i b = refl
fill_above f (suc k) end t i b = elim (Bool-cases (leb end k)) [
  | inl e ↦ rw e (ground (arith, fill_above f k end (update t k (f k)) i))
  | inr e ↦ rw e refl
]

fill_below : (f : ℕ → Slot) (n end : ℕ) (t : ℕ → Slot) (i : ℕ) → i < end → fill f n end t i ≡ t i
fill_below f zero end t i b = refl
fill_below f (suc k) end t i b = elim (Bool-cases (leb end k)) [
  | inl e ↦ rw e (ground (arith, fill_below f k end (update t k (f k)) i))
  | inr e ↦ rw e refl
]

fill_inside :
    (f : ℕ → Slot) (n end : ℕ) (t : ℕ → Slot) (i : ℕ) → end ≤ i → i < n → fill f n end t i ≡ f i
fill_inside f zero end t i a b = absurd (omega arith)
fill_inside f (suc k) end t i a b = elim (Bool-cases (i == k)) [
  | inl e ↦ ground (arith, fill_above f k end (update t k (f k)) i)
  | inr e ↦ ground (arith, fill_inside f k end (update t k (f k)) i)
]

left_over-le : (n end : ℕ) → left_over n end ≤ n
left_over-le n end = ground arith

left_over_lem : (n end : ℕ) → end ≤ n → left_over n end ≡ end
left_over_lem n end h = ground arith

chain-le : (n : ℕ) (ps : List Ancestor) → IsChain n ps → count_of ps ≤ n
chain-le n [] c = omega arith
chain-le n (p ∷ ps) c = c.0

indirect_all-above :
    (ps : List Ancestor) (d n : ℕ) (t : ℕ → Slot) (i : ℕ) → n ≤ i → indirect_all ps d n t i ≡ t i
unfolding indirect_all
indirect_all-above [] d n t i a = refl
indirect_all-above (p ∷ ps) d n t i a = elim (Bool-cases p.has_table) [
  | inl e ↦
      let t' = fill (indirect d) n (count_of ps) t in
      rw e (
        indirect_all-above ps (suc d) (left_over n (count_of ps)) t' i
          (omega (arith, a, left_over-le n (count_of ps)))
        ∙ fill_above (indirect d) n (count_of ps) t i a)
  | inr e ↦ rw e refl
]

indirect_all-slot :
    (n : ℕ) (ps : List Ancestor) (d : ℕ) (t : ℕ → Slot) (i : ℕ)
    → IsChain n ps
    → i < count_of ps
    → indirect_all ps d (count_of ps) t i ≡ indirect (declared_by ps d i) i
unfolding indirect_all
indirect_all-slot n [] d t i c l = absurd (omega arith)
indirect_all-slot n (p ∷ ps) d t i (le, (table, c)) l =
    let m = p.static_count in
    let t' = fill (indirect d) m (count_of ps) t in
    let there : p.has_table ≡ true = table (omega (arith, l)) in
    let meets : left_over m (count_of ps) ≡ count_of ps =
      left_over_lem m (count_of ps) (chain-le m ps c) in
    let starts : indirect_all (p ∷ ps) d m t i ≡ indirect_all ps (suc d) (count_of ps) t' i =
      ap (λ b. (if b then indirect_all ps (suc d) (left_over m (count_of ps)) t' else t) i) there
      ∙ ap (λ r. indirect_all ps (suc d) r t' i) meets in
    starts ∙ elim (Bool-cases (ltb i (count_of ps))) [
      | inl e ↦
          indirect_all-slot m ps (suc d) t' i c (ground (arith, e))
          ∙ ap (λ b. indirect (if b then declared_by ps (suc d) i else d) i) (sym e)
      | inr e ↦
          indirect_all-above ps (suc d) (count_of ps) t' i (ground (arith, e))
          ∙ fill_inside (indirect d) m (count_of ps) t i (ground (arith, e)) l
          ∙ ap (λ b. indirect (if b then declared_by ps (suc d) i else d) i) (sym e)
    ]

-- A slot of a class with ancestors.
abbrev pub shared_or_copied : List Ancestor → (ℕ → Zval) → ℕ → Slot
shared_or_copied ps members i =
    if ltb i (count_of ps) then indirect (declared_by ps 0 i) i else copied (members i)

-- Every static property of a linked class that is copied lies where PHP looks for it: a property that
-- an ancestor has is shared with the ancestor that declares it, the last one that has the slot, and
-- every other property is a copy of the creator's value. No slot is left with a value of the creator.
-- A class has the slots of its parent, and a class with slots has a table.
pub prepare_class_statics_lem :
    (ps : List Ancestor) (count : ℕ) (members : ℕ → Zval) (old : ℕ → Slot) (i : ℕ)
    → IsChain count ps
    → i < count
    → (prepare_class_statics true ps count members old).0 i ≡ shared_or_copied ps members i
unfolding prepare_class_statics
prepare_class_statics_lem ps zero members old i c l = absurd (omega arith)
prepare_class_statics_lem ps (suc k) members old i c l =
    let n = suc k in
    let r = count_of ps in
    let own : ℕ → Slot = λ j. copied (members j) in
    let t = fill own n r (λ j. raw (members j)) in
    ap (λ m. indirect_all ps 0 m t i) (left_over_lem n r (chain-le n ps c))
    ∙ elim (Bool-cases (ltb i r)) [
      | inl e ↦
          indirect_all-slot n ps 0 t i c (ground (arith, e))
          ∙ ap (λ b. if b then indirect (declared_by ps 0 i) i else own i) (sym e)
      | inr e ↦
          indirect_all-above ps 0 r t i (ground (arith, e))
          ∙ fill_inside own n r (λ j. raw (members j)) i (ground (arith, e)) l
          ∙ ap (λ b. if b then indirect (declared_by ps 0 i) i else own i) (sym e)
    ]
