-- ===== src/Copy/Meaning.antt =====
-- Copied opcodes mean what the opcodes mean that src/copy.c copies.
use ext_pmmpthread.Prelude.{ℕ, ◌+◌, ◌-◌, ◌*◌, ◌/◌, ◌<◌, ◌≡◌, Bool, true, false, if◌then◌else◌}
use ext_pmmpthread.Copy.Opcodes.{ZendOp, Code, op_at, literal_address}
use ext_pmmpthread.Copy.Operands.{RefersTo}
use ext_pmmpthread.Copy.Relocated.{literal_or, jump_or, first_jumps, second_jumps}

-- What an operand refers to: a literal by its number, an opcode by its number, or nothing that moves.
pub data Operand : Type 0 where
  literal jump plain : ℕ → Operand

abbrev pub operand_means : (abs is_const jumps : Bool) → Code → (i w : ℕ) → Operand
operand_means abs is_const jumps c i w =
    if is_const
    then literal ((literal_address abs (op_at abs c i) w - c.literals) / 16)
    else if jumps
    then jump ((w - c.opcodes) / 28)
    else plain w

-- An operand of compiled code: one of `n` literals, one of `last` opcodes, or neither.
pub data IsOperand (abs : Bool) (c : Code) (last n i w : ℕ) : Bool → Bool → Type 0 where
  at_literal : (k : ℕ) → k < n → RefersTo abs c i k w → IsOperand abs c last n i w true false
  at_opcode :
      (j : ℕ)
      → j < last
      → abs ≡ true
      → w ≡ c.opcodes + 28 * j
      → IsOperand abs c last n i w false true
  nowhere : IsOperand abs c last n i w false false

module _ (handler_ex : ZendOp → ℕ → ℕ) (type_at : ℕ → ℕ) (abs done : Bool) where
  abbrev copied_word : (is_const jumps : Bool) → Code → Code → (i w : ℕ) → ℕ
  copied_word is_const jumps old new i w =
      jump_or handler_ex type_at abs done jumps old new
        (literal_or handler_ex type_at abs done is_const old new i w)

  abbrev pub first_operand : Code → (i : ℕ) → ZendOp → Operand
  first_operand c i op =
      operand_means abs op.op1_const (first_jumps handler_ex type_at abs done op) c i op.op1

  abbrev pub second_operand : Code → (i : ℕ) → ZendOp → Operand
  second_operand c i op =
      operand_means abs op.op2_const (second_jumps handler_ex type_at abs done op) c i op.op2

  abbrev pub IsCompiled : Code → (last n i : ℕ) → ZendOp → Type 0
  IsCompiled c last n i op =
      IsOperand abs c last n i op.op1 op.op1_const (first_jumps handler_ex type_at abs done op)
      × IsOperand abs c last n i op.op2 op.op2_const (second_jumps handler_ex type_at abs done op)

  -- The copy of an opcode does the same with the same.
  abbrev pub SameMeaning : Code → Code → (i : ℕ) → ZendOp → ZendOp → Type 0
  SameMeaning old new i op op' =
      (op'.opcode ≡ op.opcode)
      × ((op'.extended_value ≡ op.extended_value)
          × ((first_operand new i op' ≡ first_operand old i op)
              × (second_operand new i op' ≡ second_operand old i op)))
