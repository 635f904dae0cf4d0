-- ===== src/Copy/Trees.antt =====
-- The copy of a syntax tree is that tree: what src/copy.c leaves in the block of memory.
use ext_pmmpthread.Prelude.{ℕ, ◌+◌, ◌<◌, ◌≡◌, ap, ◌∙◌, subst, Option, none, some, [], inl, arith}
use ext_pmmpthread.Memory.{update}
use ext_pmmpthread.Store.Types.{ZendString, Zval}
use ext_pmmpthread.Copy.{
  Ast, zval, constant, list, node, Children, no_more, absent, present, zval_cell, constant_cell,
  list_cell, node_cell, Memory, count, ast_size, ast_list_size, ast_tree_size, children_size,
  set_child, copy_string, copy_zval, copy_ast_tree, copy_children,
}
use ext_pmmpthread.Copy.Block.{ends, children_frame}
use ext_pmmpthread.Copy.Placed.{
  places, Placed, AllPlaced, Placed-local, link_all-list, link_all-node, update_self, header,
}

module _ (fresh : ZendString → ℕ) (copy_other : Zval → Option Zval) where
  mutual
    unfolding ast_tree_size children_size copy_ast_tree copy_children Placed AllPlaced

    copied :
        (a : Ast) (b : ℕ) (m : Memory)
        → Placed fresh copy_other a b (copy_ast_tree fresh copy_other a b m).0
    copied (zval attr v) b m =
        update_self m b (some (zval_cell attr (copy_zval fresh copy_other v)))
    copied (constant attr s) b m =
        update_self m b (some (constant_cell attr (copy_string fresh copy_other s)))
    copied (list kind attr cs) b m =
        let c = list_cell kind attr (count cs) [] in
        let start = b + ast_list_size (count cs) in
        let m' = update m b (some c) in
        (
          header fresh copy_other cs b start m' c (omega arith) (update_self m b (some c))
              ∙ ap some (link_all-list (places cs start) [] kind attr (count cs)),
          children_copied cs b start m' (omega arith),
        )
    copied (node kind attr cs) b m =
        let c = node_cell kind attr [] in
        let start = b + ast_size (count cs) in
        let m' = update m b (some c) in
        (
          header fresh copy_other cs b start m' c (omega arith) (update_self m b (some c))
              ∙ ap some (link_all-node (places cs start) [] kind attr),
          children_copied cs b start m' (omega arith),
        )

    children_copied :
        (cs : Children) (new b : ℕ) (m : Memory)
        → new < b
        → AllPlaced fresh copy_other cs b (copy_children fresh copy_other cs new b m).0
    children_copied no_more new b m l = tt
    children_copied (absent cs) new b m l = children_copied cs new b (set_child new none m) l
    children_copied (present a cs) new b m l =
        let m' = set_child new (some b) m in
        let r = copy_ast_tree fresh copy_other a b m' in
        let at_end : r.1 ≡ b + ast_tree_size a = ends fresh copy_other a b m' in
        (
          Placed-local fresh copy_other a b r.0 (copy_children fresh copy_other cs new r.1 r.0).0
              (λ q lo hi.
                children_frame fresh copy_other cs new r.1 r.0 q (λ e. omega (arith, e, lo, l))
                  (inl (omega (arith, at_end, hi))))
              (copied a b m'),
          subst
              (λ e.
                AllPlaced fresh copy_other cs e (copy_children fresh copy_other cs new r.1 r.0).0)
              at_end (children_copied cs new r.1 r.0 (omega (arith, at_end, l))),
        )
