-- ===== src/Prepare/Classes.antt =====
-- src/prepare.c: the static properties of a class that is copied, in slots that a class has in common
-- with its ancestors.
use ext_pmmpthread.Prelude.{ℕ, zero, suc, Bool, List, [], ◌∷◌, leb, if◌then◌else◌}
use ext_pmmpthread.Memory.{update}
use ext_pmmpthread.Store.Types.{Zval}

-- A slot of default_static_members_table. `raw` is a value of the creator that memcpy moved, `copied`
-- is what pmmpthread_copy_zval makes of it, and `indirect d i` is ZVAL_INDIRECT to slot `i` of the d-th
-- ancestor, the parent being the 0-th.
pub data Slot : Type 0 where
  raw copied : Zval → Slot
  indirect : ℕ → ℕ → Slot

-- An ancestor: default_static_members_count, and whether there is a table.
pub record Ancestor : Type 0 where
  pub static_count : ℕ
  pub has_table : Bool

-- The count of the first of the ancestors, 0 where there is none.
abbrev pub count_of : List Ancestor → ℕ
count_of [] = 0
count_of (p ∷ ps) = p.static_count

-- for (; i >= end; i--), from `i = n - 1`
abbrev pub fill : (ℕ → Slot) → (n end : ℕ) → (ℕ → Slot) → ℕ → Slot
fill f zero end t = t
fill f (suc k) end t = let rest = fill f k end (update t k (f k)) in if leb end k then rest else t

-- Where `i` is afterwards, as `i + 1`.
abbrev pub left_over : (n end : ℕ) → ℕ
left_over n end = if leb end n then end else n

unfoldable pub indirect_all : List Ancestor → (d n : ℕ) → (ℕ → Slot) → ℕ → Slot
indirect_all [] d n t = t
indirect_all (p ∷ ps) d n t =
    let rest =
      indirect_all ps (suc d) (left_over n (count_of ps)) (fill (indirect d) n (count_of ps) t) in
    if p.has_table then rest else t

-- The ancestors of the copy are NULL where it is not linked. The result is the table with its count;
-- a table `old` that the class had is freed, but kept where the creator's class has no slots. `members`
-- are the copies of the creator's values: that each of them can be made is asserted by the source, and
-- taken for granted here.
unfoldable pub prepare_class_statics :
    (linked : Bool) → List Ancestor → (count : ℕ) → (ℕ → Zval) → (old : ℕ → Slot) → (ℕ → Slot) × ℕ
prepare_class_statics linked ancestors zero members old = (old, 0)
prepare_class_statics linked ancestors (suc k) members old =
    let parents = if linked then ancestors else [] in
    let n = suc k in
    (
      indirect_all parents 0 (left_over n (count_of parents))
          (fill (λ i. copied (members i)) n (count_of parents) (λ i. raw (members i))),
      n,
    )
