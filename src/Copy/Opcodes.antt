-- ===== src/Copy/Opcodes.antt =====
-- src/copy.c: the opcodes of a function that is copied, with their references to literals and to other
-- opcodes. `abs` is whether addresses have 32 bits; operands then hold addresses, and else distances
-- in 32 bits with a sign.
use Prim.Native.Nat.{bit_and}
use ext_pmmpthread.Prelude.{
  ℕ, suc, ◌+◌, ◌-◌, ◌*◌, ◌/◌, ◌%◌, ◌^◌, Bool, true, false, not, ◌&&◌, List, [], ◌∷◌, ltb, ◌==◌,
  if◌then◌else◌,
}

-- The opcodes that the code tells apart.
pub data Opcode : Type 0 where
  send_val send_val_ex qm_assign : Opcode
  jmp fast_call : Opcode
  jmpz jmpnz jmpz_ex jmpnz_ex jmp_set coalesce fe_reset_r fe_reset_rw : Opcode
  assert_check jmp_null bind_init_static_or_jmp jmp_frameless : Opcode
  catch : Opcode
  other : ℕ → Opcode

-- zend_op: `op1_const` and `op2_const` are whether the type is IS_CONST; an operand is a word of 32 bits.
pub record ZendOp : Type 0 where
  pub opcode : Opcode
  pub op1_const : Bool
  pub op1 : ℕ
  pub op2_const : Bool
  pub op2 : ℕ
  pub extended_value : ℕ
  pub handler : ℕ

-- Where the opcodes and the literals of a function begin.
pub record Code : Type 0 where
  pub opcodes : ℕ
  pub literals : ℕ

-- sizeof(zend_op)
abbrev pub op_size : Bool → ℕ
op_size abs = if abs then 28 else 32

abbrev pub op_at : Bool → Code → ℕ → ℕ
op_at abs c i = c.opcodes + op_size abs * i

-- (int32_t), as a word of 64 bits
abbrev pub sign_extend : ℕ → ℕ
sign_extend w = if ltb w 2147483648 then w else w + 18446744069414584320

-- The address of the literal that an operand of the opcode at `opline` refers to.
abbrev pub literal_address : Bool → (opline : ℕ) → (operand : ℕ) → ℕ
literal_address abs opline w = if abs then w else (opline + sign_extend w) % 18446744073709551616

-- sizeof(zval) is 16.
abbrev pub relocate_literal : Bool → Code → Code → (i : ℕ) → (operand : ℕ) → ℕ
relocate_literal abs old new i w =
    if abs
    then (w + (new.literals + (4294967296 - old.literals))) % 4294967296
    else (new.literals
        + 16 * ((literal_address false (op_at false old i) w - old.literals) / 16)
        + (18446744073709551616 - op_at false new i))
      % 4294967296

-- &copy[jmp_addr - op_array->opcodes]
abbrev pub relocate_jump : Code → Code → (operand : ℕ) → ℕ
relocate_jump old new w = (new.opcodes + 28 * ((w - old.opcodes) / 28)) % 4294967296

-- ZEND_LAST_CATCH
abbrev pub last_catch : ZendOp → Bool
last_catch op = bit_and op.extended_value 1 == 1

abbrev pub sends : Opcode → Bool
sends send_val = true
sends send_val_ex = true
sends qm_assign = true
sends _ = false

abbrev pub op1_jumps : Opcode → Bool
op1_jumps jmp = true
op1_jumps fast_call = true
op1_jumps _ = false

-- `last` is the flag of a catch.
abbrev pub op2_jumps : (last : Bool) → Opcode → Bool
op2_jumps last jmpz = true
op2_jumps last jmpnz = true
op2_jumps last jmpz_ex = true
op2_jumps last jmpnz_ex = true
op2_jumps last jmp_set = true
op2_jumps last coalesce = true
op2_jumps last fe_reset_r = true
op2_jumps last fe_reset_rw = true
op2_jumps last assert_check = true
op2_jumps last jmp_null = true
op2_jumps last bind_init_static_or_jmp = true
op2_jumps last jmp_frameless = true
op2_jumps last catch = not last
op2_jumps last _ = false

-- The parameters are the handler that zend_vm_set_opcode_handler_ex finds for an opcode and what is
-- known of its first operand, and the type of the literal at an address. `done` is
-- ZEND_ACC_DONE_PASS_TWO.
module _ (handler_ex : ZendOp → ℕ → ℕ) (type_at : ℕ → ℕ) (abs done : Bool) where
  abbrev pub operand_info : ℕ → ℕ
  operand_info w = if abs then 2 ^ type_at w else 0

  abbrev pub respecialise : ZendOp → ZendOp
  respecialise op =
      if sends op.opcode then record op { handler = handler_ex op (operand_info op.op1) } else op

  abbrev pub copy_op1_literal : Code → Code → ℕ → ZendOp → ZendOp
  copy_op1_literal old new i op =
      if op.op1_const
      then respecialise (record op { op1 = relocate_literal abs old new i op.op1 })
      else op

  abbrev pub copy_op2_literal : Code → Code → ℕ → ZendOp → ZendOp
  copy_op2_literal old new i op =
      if op.op2_const then record op { op2 = relocate_literal abs old new i op.op2 } else op

  abbrev pub copy_op1_jump : Code → Code → ZendOp → ZendOp
  copy_op1_jump old new op =
      if (abs && done) && op1_jumps op.opcode
      then record op { op1 = relocate_jump old new op.op1 }
      else op

  abbrev pub copy_op2_jump : Code → Code → ZendOp → ZendOp
  copy_op2_jump old new op =
      if (abs && done) && op2_jumps (last_catch op) op.opcode
      then record op { op2 = relocate_jump old new op.op2 }
      else op

  -- A round of the loop, at the opcode of index `i`.
  unfoldable pub copy_opline : Code → Code → (i : ℕ) → ZendOp → ZendOp
  copy_opline old new i op =
      copy_op2_jump old new
        (copy_op1_jump old new (copy_op2_literal old new i (copy_op1_literal old new i op)))

  abbrev pub copy_oplines : Code → Code → (i : ℕ) → List ZendOp → List ZendOp
  copy_oplines old new i [] = []
  copy_oplines old new i (op ∷ ops) = copy_opline old new i op ∷ copy_oplines old new (suc i) ops

  unfoldable pub copy_opcodes : Code → Code → List ZendOp → List ZendOp
  copy_opcodes old new ops = copy_oplines old new 0 ops
