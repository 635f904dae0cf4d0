-- ===== src/Copy/Relocated.antt =====
-- The fields of an opcode that src/copy.c has copied.
use ext_pmmpthread.Prelude.{
  ℕ, ◌^◌, ◌≡◌, refl, sym, ap, ◌∙◌, Bool, ◌&&◌, if◌then◌else◌, Bool-cases, inl, inr,
}
use ext_pmmpthread.Copy.Opcodes.{
  ZendOp, Code, relocate_literal, relocate_jump, op1_jumps, op2_jumps, last_catch, sends,
  respecialise, copy_op1_literal, copy_op2_literal, copy_op1_jump, copy_op2_jump, copy_opline,
}

module _ (handler_ex : ZendOp → ℕ → ℕ) (type_at : ℕ → ℕ) (abs done : Bool) where
  abbrev pub with_operands : ZendOp → (op1 op2 handler : ℕ) → ZendOp
  with_operands op a b h = record op { op1 = a; op2 = b; handler = h }

  abbrev pub literal_or : Bool → Code → Code → (i w : ℕ) → ℕ
  literal_or c old new i w = if c then relocate_literal abs old new i w else w

  abbrev pub jump_or : Bool → Code → Code → ℕ → ℕ
  jump_or j old new w = if j then relocate_jump old new w else w

  respecialised :
      (op : ZendOp)
      → (h : ℕ) × (respecialise handler_ex type_at abs done op ≡ record op { handler = h })
  respecialised op = elim (Bool-cases (sends op.opcode)) [
    | inl e ↦ (handler_ex op (if abs then 2 ^ type_at op.op1 else 0), rw e refl)
    | inr e ↦ (op.handler, rw e refl)
  ]

  op1_literal_done :
      (old new : Code) (i : ℕ) (op : ZendOp)
      → (h : ℕ) × (copy_op1_literal handler_ex type_at abs done old new i op
          ≡ with_operands op (literal_or op.op1_const old new i op.op1) op.op2 h)
  op1_literal_done old new i op = elim (Bool-cases op.op1_const) [
    | inl e ↦
        let w = relocate_literal abs old new i op.op1 in
        let op' = record op { op1 = w } in
        let (h, q) = respecialised op' in
        (
          h,
          ap (λ c. if c then respecialise handler_ex type_at abs done op' else op) e
              ∙ q
              ∙ ap (λ c. with_operands op (if c then w else op.op1) op.op2 h) (sym e),
        )
    | inr e ↦ (op.handler, rw e refl)
  ]

  literals_done :
      (old new : Code) (i : ℕ) (op : ZendOp)
      → (h : ℕ) × (copy_op2_literal handler_ex type_at abs done old new i
            (copy_op1_literal handler_ex type_at abs done old new i op)
          ≡ with_operands op
              (literal_or op.op1_const old new i op.op1)
              (literal_or op.op2_const old new i op.op2)
              h)
  literals_done old new i op =
      let (h, q) = op1_literal_done old new i op in
      (
        h,
        ap (copy_op2_literal handler_ex type_at abs done old new i) q
            ∙ elim (Bool-cases op.op2_const) [ inl e ↦ rw e refl | inr e ↦ rw e refl ],
      )

  abbrev pub first_jumps : ZendOp → Bool
  first_jumps op = (abs && done) && op1_jumps op.opcode

  abbrev pub second_jumps : ZendOp → Bool
  second_jumps op = (abs && done) && op2_jumps (last_catch op) op.opcode

  jumps_done :
      (old new : Code) (op : ZendOp) (a b h : ℕ)
      → copy_op2_jump handler_ex type_at abs done old new
          (copy_op1_jump handler_ex type_at abs done old new (with_operands op a b h))
        ≡ with_operands op
            (jump_or (first_jumps op) old new a)
            (jump_or (second_jumps op) old new b)
            h
  jumps_done old new op a b h =
      ap (copy_op2_jump handler_ex type_at abs done old new)
        (elim (Bool-cases (first_jumps op))
          as (λ _.
            copy_op1_jump handler_ex type_at abs done old new (with_operands op a b h)
            ≡ with_operands op (jump_or (first_jumps op) old new a) b h) [
              | inl e ↦ rw e refl
              | inr e ↦ rw e refl
            ])
      ∙ elim (Bool-cases (second_jumps op)) [ inl e ↦ rw e refl | inr e ↦ rw e refl ]

  pub copied_opline :
      (old new : Code) (i : ℕ) (op : ZendOp)
      → (h : ℕ) × (copy_opline handler_ex type_at abs done old new i op
          ≡ with_operands op
              (jump_or (first_jumps op) old new (literal_or op.op1_const old new i op.op1))
              (jump_or (second_jumps op) old new (literal_or op.op2_const old new i op.op2))
              h)
  unfolding copy_opline
  copied_opline old new i op =
      let (h, q) = literals_done old new i op in
      (
        h,
        ap
              (λ o.
                copy_op2_jump handler_ex type_at abs done old new
                  (copy_op1_jump handler_ex type_at abs done old new o))
              q
            ∙ jumps_done old new op (literal_or op.op1_const old new i op.op1)
                (literal_or op.op2_const old new i op.op2) h,
      )
