-- ===== src/Copy.antt =====
-- src/copy.c: copies of strings, of values and of the syntax trees of constant expressions. A tree is
-- copied into one block of memory, whose size is computed first.
pub mod Block
pub mod Opcodes
pub mod Operands
pub mod Relocated
pub mod Meaning
pub mod Functions
pub mod Once
pub mod Closures
pub mod References
pub mod Placed
pub mod Trees
mod Tests
use ext_pmmpthread.Prelude.{
  ℕ, ◌+◌, ◌-◌, ◌*◌, Bool, true, false, Option, none, some, List, [], ◌∷◌, ◌++◌, ◌==◌, if◌then◌else◌,
}
use ext_pmmpthread.Memory.{update}
use ext_pmmpthread.Store.Types.{
  ZendString, Object, Zval, undef, null, bool, long, double, string, array, resource, object,
}

-- zend_ast: a value, a constant's name, a list of children and a node of a fixed number of children.
-- The numbers are `attr`, and `kind` before it; a child may be NULL.
mutual
  pub data Ast : Type 0 where
    zval : ℕ → Zval → Ast
    constant : ℕ → ZendString → Ast
    list : ℕ → ℕ → Children → Ast
    node : ℕ → ℕ → Children → Ast

  pub data Children : Type 0 where
    no_more : Children
    absent : Children → Children
    present : Ast → Children → Children

-- What lies where a node begins: its fields, and the addresses of its children so far. The value of a
-- copy that failed is not initialised.
pub data Cell : Type 0 where
  zval_cell : ℕ → Option Zval → Cell
  constant_cell : ℕ → ZendString → Cell
  list_cell : ℕ → ℕ → (children : ℕ) → List (Option ℕ) → Cell
  node_cell : ℕ → ℕ → List (Option ℕ) → Cell

abbrev pub Memory : Type 0
Memory = ℕ → Option Cell

abbrev pub count : Children → ℕ
count no_more = 0
count (absent cs) = 1 + count cs
count (present a cs) = 1 + count cs

-- sizeof(zend_ast_zval), sizeof(zend_ast_list), sizeof(zend_ast*) and sizeof(zend_ast_ref), where an
-- address has 64 bits, and the engine's zend_ast_size.
abbrev pub zval_size : ℕ
zval_size = 24

abbrev pub pointer_size : ℕ
pointer_size = 8

abbrev pub ref_size : ℕ
ref_size = 8

abbrev pub ast_size : ℕ → ℕ
ast_size children = 16 - pointer_size + pointer_size * children

abbrev pub ast_list_size : ℕ → ℕ
ast_list_size children = 24 - pointer_size + pointer_size * children

unfoldable mutual
  pub ast_tree_size : Ast → ℕ
  ast_tree_size (zval attr v) = zval_size
  ast_tree_size (constant attr s) = zval_size
  ast_tree_size (list kind attr cs) = ast_list_size (count cs) + children_size cs
  ast_tree_size (node kind attr cs) = ast_size (count cs) + children_size cs

  pub children_size : Children → ℕ
  children_size no_more = 0
  children_size (absent cs) = children_size cs
  children_size (present a cs) = ast_tree_size a + children_size cs

-- new->child[i] = p
abbrev pub link : Option ℕ → Cell → Cell
link p (zval_cell attr v) = zval_cell attr v
link p (constant_cell attr s) = constant_cell attr s
link p (list_cell kind attr n ps) = list_cell kind attr n (ps ++ p ∷ [])
link p (node_cell kind attr ps) = node_cell kind attr (ps ++ p ∷ [])

abbrev pub linked : Option ℕ → Option Cell → Option Cell
linked p none = none
linked p (some c) = some (link p c)

abbrev pub set_child : (new : ℕ) → Option ℕ → Memory → Memory
set_child new p m = update m new (linked p (m new))

-- The parameters are the address of a new string, and the copies of arrays and objects.
module _ (fresh : ZendString → ℕ) (copy_other : Zval → Option Zval) where
  -- Only a permanent string is shared.
  abbrev pub copy_string : ZendString → ZendString
  copy_string s = if s.permanent then s else record s { addr = fresh s }

  unfoldable pub copy_zval : Zval → Option Zval
  copy_zval null = some null
  copy_zval (bool b) = some (bool b)
  copy_zval (long n) = some (long n)
  copy_zval (double d) = some (double d)
  copy_zval (string s) = some (string (copy_string s))
  copy_zval (array a) = copy_other (array a)
  copy_zval (object o) = copy_other (object o)
  copy_zval (resource r) = none
  copy_zval undef = none

  -- The memory afterwards, and where `buf` points.
  unfoldable mutual
    pub copy_ast_tree : Ast → (buf : ℕ) → Memory → Memory × ℕ
    copy_ast_tree (zval attr v) buf m =
        (update m buf (some (zval_cell attr (copy_zval v))), buf + zval_size)
    copy_ast_tree (constant attr s) buf m =
        (update m buf (some (constant_cell attr (copy_string s))), buf + zval_size)
    copy_ast_tree (list kind attr cs) buf m =
        copy_children cs buf (buf + ast_list_size (count cs))
          (update m buf (some (list_cell kind attr (count cs) [])))
    copy_ast_tree (node kind attr cs) buf m =
        copy_children cs buf (buf + ast_size (count cs))
          (update m buf (some (node_cell kind attr [])))

    pub copy_children : Children → (new buf : ℕ) → Memory → Memory × ℕ
    copy_children no_more new buf m = (m, buf)
    copy_children (absent cs) new buf m = copy_children cs new buf (set_child new none m)
    copy_children (present a cs) new buf m =
        let r = copy_ast_tree a buf (set_child new (some buf) m) in copy_children cs new r.1 r.0

  -- The block at `ref` has a header and then the tree; the result is its size with the memory.
  unfoldable pub copy_ast : Ast → (ref : ℕ) → Memory → ℕ × Memory
  copy_ast a ref m = (ast_tree_size a + ref_size, (copy_ast_tree a (ref + ref_size) m).0)
