-- ===== src/Copy/Block.antt =====
-- The memory that the copy of a syntax tree takes, by the recursion of src/copy.c.
use ext_pmmpthread.Prelude.{
  ℕ, ◌+◌, ◌≤◌, ◌<◌, ◌≡◌, ◌≢◌, refl, ap, ◌∙◌, Option, none, some, [], ◌⊎◌, ==_ne, if◌then◌else◌,
  arith,
}
use ext_pmmpthread.Memory.{update}
use ext_pmmpthread.Store.Types.{ZendString, Zval}
use ext_pmmpthread.Copy.{
  Ast, zval, constant, list, node, Children, no_more, absent, present, Cell, zval_cell,
  constant_cell, list_cell, node_cell, Memory, count, ast_size, ast_list_size, ast_tree_size,
  children_size, linked, set_child, copy_string, copy_zval, copy_ast_tree, copy_children,
}

-- An address lies outside `n` bytes from `b` on.
abbrev pub Outside : (b n q : ℕ) → Type 0
Outside b n q = (q < b) ⊎ (b + n ≤ q)

ne_of : (b n q : ℕ) → 0 < n → Outside b n q → q ≢ b
ne_of b n q pos o e = ground arith

update_other : (m : Memory) (b q : ℕ) (c : Option Cell) → q ≢ b → update m b c q ≡ m q
update_other m b q c ne = ap (λ t. if t then c else m q) (==_ne ne)

pub set_child_other :
    (new : ℕ) (p : Option ℕ) (m : Memory) (q : ℕ) → q ≢ new → set_child new p m q ≡ m q
set_child_other new p m q ne = ap (λ t. if t then linked p (m new) else m q) (==_ne ne)

module _ (fresh : ZendString → ℕ) (copy_other : Zval → Option Zval) where
  mutual
    unfolding ast_tree_size children_size copy_ast_tree copy_children

    pub ends :
        (a : Ast) (b : ℕ) (m : Memory)
        → (copy_ast_tree fresh copy_other a b m).1 ≡ b + ast_tree_size a
    ends (zval attr v) b m = refl
    ends (constant attr s) b m = refl
    ends (list kind attr cs) b m = omega (
      arith,
      children_end cs b (b + ast_list_size (count cs))
          (update m b (some (list_cell kind attr (count cs) []))),
    )
    ends (node kind attr cs) b m = omega (
      arith,
      children_end cs b (b + ast_size (count cs)) (update m b (some (node_cell kind attr []))),
    )

    pub children_end :
        (cs : Children) (new b : ℕ) (m : Memory)
        → (copy_children fresh copy_other cs new b m).1 ≡ b + children_size cs
    children_end no_more new b m = omega arith
    children_end (absent cs) new b m = children_end cs new b (set_child new none m)
    children_end (present a cs) new b m =
        let r = copy_ast_tree fresh copy_other a b (set_child new (some b) m) in
        omega (arith, children_end cs new r.1 r.0, ends a b (set_child new (some b) m))

  mutual
    unfolding ast_tree_size children_size copy_ast_tree copy_children

    pub frame :
        (a : Ast) (b : ℕ) (m : Memory) (q : ℕ)
        → Outside b (ast_tree_size a) q
        → (copy_ast_tree fresh copy_other a b m).0 q ≡ m q
    frame (zval attr v) b m q o =
        update_other m b q (some (zval_cell attr (copy_zval fresh copy_other v)))
          (ne_of b 24 q (omega arith) o)
    frame (constant attr s) b m q o =
        update_other m b q (some (constant_cell attr (copy_string fresh copy_other s)))
          (ne_of b 24 q (omega arith) o)
    frame (list kind attr cs) b m q o =
        let ne : q ≢ b = λ e. ground arith in
        let c = some (list_cell kind attr (count cs) []) in
        children_frame cs b (b + ast_list_size (count cs)) (update m b c) q ne (ground arith)
        ∙ update_other m b q c ne
    frame (node kind attr cs) b m q o =
        let ne : q ≢ b = λ e. ground arith in
        let c = some (node_cell kind attr []) in
        children_frame cs b (b + ast_size (count cs)) (update m b c) q ne (ground arith)
        ∙ update_other m b q c ne

    pub children_frame :
        (cs : Children) (new b : ℕ) (m : Memory) (q : ℕ)
        → q ≢ new
        → Outside b (children_size cs) q
        → (copy_children fresh copy_other cs new b m).0 q ≡ m q
    children_frame no_more new b m q ne o = refl
    children_frame (absent cs) new b m q ne o =
        children_frame cs new b (set_child new none m) q ne o ∙ set_child_other new none m q ne
    children_frame (present a cs) new b m q ne o =
        let m' = set_child new (some b) m in
        let r = copy_ast_tree fresh copy_other a b m' in
        let at_end = ends a b m' in
        children_frame cs new r.1 r.0 q ne (ground (arith, at_end))
        ∙ frame a b m' q (ground arith)
        ∙ set_child_other new (some b) m q ne
