-- ===== src/Copy/Tests.antt =====
-- The theorems about src/copy.c at the tree of `A + 5` and at two opcodes, and runs of the code.
use ext_pmmpthread.Prelude.{ℕ, ◌+◌, ◌≡◌, refl, true, false, map, Option, none, some, [], ◌∷◌}
use ext_pmmpthread.Store.Types.{ZendString, Zval, long, string, resource}
use ext_pmmpthread.Copy.{
  Ast, zval, constant, list, node, no_more, absent, present, node_cell, list_cell, Memory,
  ast_tree_size, children_size, copy_zval, copy_ast_tree, copy_children, copy_ast,
}
use ext_pmmpthread.Copy.Placed.{Placed}
use ext_pmmpthread.Copy.Opcodes.{ZendOp, Code, send_val, jmp, copy_opline, copy_opcodes}
use ext_pmmpthread.Copy.Closures.{Closure, Calls, copy_closure, null_read, resolve_enum_reference}

abbrev name_a : ZendString
name_a = record { addr = 4; text = 65 ∷ []; permanent = false }

abbrev fresh_string : ZendString → ℕ
fresh_string s = 500 + s.addr

abbrev no_copy : Zval → Option Zval
no_copy v = none

-- A sum of kind 1, of the constant `A` and a 5.
abbrev sum : Ast
sum = node 1 0 (present (constant 0 name_a) (present (zval 0 (long 5)) no_more))

abbrev unused : Memory
unused q = none

sum_size : (copy_ast fresh_string no_copy sum 1000 unused).0 ≡ 80
unfolding copy_ast ast_tree_size children_size
sum_size = refl

sum_root :
    (copy_ast fresh_string no_copy sum 1000 unused).1 1008
    ≡ some (node_cell 1 0 (some 1032 ∷ some 1056 ∷ []))
unfolding copy_ast copy_ast_tree copy_children
sum_root = refl

-- A list with a gap.
gap_root :
    (copy_ast fresh_string no_copy
        (list 2 0 (absent (present (zval 0 (long 5)) no_more)))
        1000
        unused).1
      1008
    ≡ some (list_cell 2 0 2 (none ∷ some 1040 ∷ []))
unfolding copy_ast copy_ast_tree copy_children
gap_root = refl

zval_run :
    copy_zval fresh_string no_copy (string name_a) ≡ some (string (record name_a { addr = 504 }))
unfolding copy_zval
zval_run = refl

resource_run : copy_zval fresh_string no_copy (resource 3) ≡ none
unfolding copy_zval
resource_run = refl

-- Two opcodes with a literal behind them, on 64 bits; the first sends the literal.
abbrev send : ZendOp
send = record {
  opcode = send_val;
  op1_const = true;
  op1 = 64;
  op2_const = false;
  op2 = 7;
  extended_value = 0;
  handler = 0;
}

abbrev jump_back : ZendOp
jump_back = record send { opcode = jmp; op1_const = false; op1 = 1000 }

abbrev old_code : Code
old_code = record { opcodes = 1000; literals = 1064 }

abbrev new_code : Code
new_code = record { opcodes = 5000; literals = 5064 }

abbrev any_handler : ZendOp → ℕ → ℕ
any_handler op info = 9

-- On 32 bits the jump goes to the copy, and the literal's address is moved.
wide_run :
    map {B = ℕ × ℕ}
      (λ o. (o.op1, o.handler))
      (copy_opcodes any_handler
        (λ a. 4)
        true
        true
        old_code
        new_code
        (record send { op1 = 1064 } ∷ jump_back ∷ []))
    ≡ (5064, 9) ∷ (5000, 0) ∷ []
unfolding copy_opcodes copy_opline
wide_run = refl

-- A first-class callable of a method of the object 5, which the thread reaches by the connection 8.
abbrev callable : Closure
callable = record {
  this = some 5;
  fake = true;
  user = true;
  name = "run";
  called_scope = some 40;
  scope = some 40;
  static_variables = none;
  static_variables_ptr = none;
}

abbrev without_method : Calls
without_method = record {
  connect = λ a. some 8;
  local_class = λ a. a;
  method = λ k n. none;
  find_function = λ n. none;
  copy_statics = λ a. a;
  definition = 0;
}

-- The reference that is left behind.
lost_run : (copy_closure without_method true callable (λ c. 1)).refs 8 ≡ 2
unfolding copy_closure
lost_run = refl

found_run :
    (copy_closure (record without_method { method = λ k n. some 90 }) true callable (λ c. 1)).refs 8
    ≡ 2
unfolding copy_closure
found_run = refl

-- A class that the thread does not have.
enum_run : resolve_enum_reference none "A" ≡ null_read
unfolding resolve_enum_reference
enum_run = refl
