-- ===== src/Copy/Placed.antt =====
-- Where the nodes of the copy of a syntax tree of src/copy.c are.
use mathlib.Core.List.{append_assoc, append-nil}
use ext_pmmpthread.Prelude.{
  ℕ, ◌+◌, ◌≤◌, ◌<◌, ◌≡◌, sym, ap, ◌∙◌, Option, none, some, List, [], ◌∷◌, ◌++◌, inl, ==_self,
  if◌then◌else◌, arith,
}
use ext_pmmpthread.Memory.{update}
use ext_pmmpthread.Store.Types.{ZendString, Zval}
use ext_pmmpthread.Copy.{
  Ast, zval, constant, list, node, Children, no_more, absent, present, Cell, zval_cell,
  constant_cell, list_cell, node_cell, Memory, count, ast_size, ast_list_size, ast_tree_size,
  children_size, link, linked, set_child, copy_string, copy_zval, copy_ast_tree, copy_children,
}
use ext_pmmpthread.Copy.Block.{ends, frame}

-- The addresses of children that lie one after another from `b` on; NULL stays NULL.
abbrev pub places : Children → ℕ → List (Option ℕ)
places no_more b = []
places (absent cs) b = none ∷ places cs b
places (present a cs) b = some b ∷ places cs (b + ast_tree_size a)

-- Each cell is no other's: the memory is read where the tree lies only.
abbrev pub Agrees : (b n : ℕ) → Memory → Memory → Type 0
Agrees b n m m' = (q : ℕ) → b ≤ q → q < b + n → m' q ≡ m q

abbrev pub link_all : List (Option ℕ) → Cell → Cell
link_all [] c = c
link_all (p ∷ ps) c = link_all ps (link p c)

pub link_all-list :
    (ps qs : List (Option ℕ)) (kind attr n : ℕ)
    → link_all ps (list_cell kind attr n qs) ≡ list_cell kind attr n (qs ++ ps)
link_all-list [] qs kind attr n = ap (list_cell kind attr n) (sym (append-nil qs))
link_all-list (p ∷ ps) qs kind attr n =
    link_all-list ps (qs ++ p ∷ []) kind attr n
    ∙ ap (list_cell kind attr n) (append_assoc qs (p ∷ []) ps)

pub link_all-node :
    (ps qs : List (Option ℕ)) (kind attr : ℕ)
    → link_all ps (node_cell kind attr qs) ≡ node_cell kind attr (qs ++ ps)
link_all-node [] qs kind attr = ap (node_cell kind attr) (sym (append-nil qs))
link_all-node (p ∷ ps) qs kind attr =
    link_all-node ps (qs ++ p ∷ []) kind attr
    ∙ ap (node_cell kind attr) (append_assoc qs (p ∷ []) ps)

pub update_self : (m : Memory) (b : ℕ) (c : Option Cell) → update m b c b ≡ c
update_self m b c = ap (λ t. if t then c else m b) (==_self b)

module _ (fresh : ZendString → ℕ) (copy_other : Zval → Option Zval) where
  -- A copy of the tree lies at `b`: the same nodes, with copies of the values and strings, and each
  -- child where its parent says.
  unfoldable mutual
    pub Placed : Ast → ℕ → Memory → Type 0
    Placed (zval attr v) b m = m b ≡ some (zval_cell attr (copy_zval fresh copy_other v))
    Placed (constant attr s) b m = m b ≡ some (constant_cell attr (copy_string fresh copy_other s))
    Placed (list kind attr cs) b m =
        (m b ≡ some (list_cell kind attr (count cs) (places cs (b + ast_list_size (count cs)))))
        × AllPlaced cs (b + ast_list_size (count cs)) m
    Placed (node kind attr cs) b m =
        (m b ≡ some (node_cell kind attr (places cs (b + ast_size (count cs)))))
        × AllPlaced cs (b + ast_size (count cs)) m

    pub AllPlaced : Children → ℕ → Memory → Type 0
    AllPlaced no_more b m = Unit
    AllPlaced (absent cs) b m = AllPlaced cs b m
    AllPlaced (present a cs) b m = Placed a b m × AllPlaced cs (b + ast_tree_size a) m

  mutual
    unfolding ast_tree_size children_size Placed AllPlaced

    pub Placed-local :
        (a : Ast) (b : ℕ) (m m' : Memory)
        → Agrees b (ast_tree_size a) m m'
        → Placed a b m
        → Placed a b m'
    Placed-local (zval attr v) b m m' same h = same b (omega arith) (omega arith) ∙ h
    Placed-local (constant attr s) b m m' same h = same b (omega arith) (omega arith) ∙ h
    Placed-local (list kind attr cs) b m m' same (h, hs) = (
      same b (omega arith) (omega arith) ∙ h,
      AllPlaced-local cs (b + ast_list_size (count cs)) m m'
          (λ q l u. same q (omega (arith, l)) (omega (arith, u))) hs,
    )
    Placed-local (node kind attr cs) b m m' same (h, hs) = (
      same b (omega arith) (omega arith) ∙ h,
      AllPlaced-local cs (b + ast_size (count cs)) m m'
          (λ q l u. same q (omega (arith, l)) (omega (arith, u))) hs,
    )

    pub AllPlaced-local :
        (cs : Children) (b : ℕ) (m m' : Memory)
        → Agrees b (children_size cs) m m'
        → AllPlaced cs b m
        → AllPlaced cs b m'
    AllPlaced-local no_more b m m' same h = tt
    AllPlaced-local (absent cs) b m m' same h = AllPlaced-local cs b m m' same h
    AllPlaced-local (present a cs) b m m' same (h, hs) = (
      Placed-local a b m m' (λ q l u. same q l (omega (arith, u))) h,
      AllPlaced-local cs (b + ast_tree_size a) m m'
          (λ q l u. same q (omega (arith, l)) (omega (arith, u))) hs,
    )

  pub header :
      (cs : Children) (new b : ℕ) (m : Memory) (c : Cell)
      → new < b
      → m new ≡ some c
      → (copy_children fresh copy_other cs new b m).0 new ≡ some (link_all (places cs b) c)
  unfolding copy_children
  header no_more new b m c l h = h
  header (absent cs) new b m c l h =
      header cs new b (set_child new none m) (link none c) l
        (update_self m new (linked none (m new)) ∙ ap (linked none) h)
  header (present a cs) new b m c l h =
      let m' = set_child new (some b) m in
      let r = copy_ast_tree fresh copy_other a b m' in
      let kept : r.0 new ≡ some (link (some b) c) =
        frame fresh copy_other a b m' new (inl l)
        ∙ update_self m new (linked (some b) (m new))
        ∙ ap (linked (some b)) h in
      header cs new r.1 r.0 (link (some b) c) (omega (arith, ends fresh copy_other a b m', l)) kept
      ∙ ap (λ e. some (link_all (places cs e) (link (some b) c))) (ends fresh copy_other a b m')
