-- ===== src/Copy/Operands.antt =====
-- What the operands of copied opcodes refer to, by the arithmetic of src/copy.c.
use ext_pmmpthread.Prelude.{
  ℕ, ◌+◌, ◌-◌, ◌*◌, ◌/◌, ◌%◌, ◌≤◌, ◌<◌, ◌≡◌, refl, ap, ◌∙◌, Bool, true, false, if◌then◌else◌, arith,
}
use ext_pmmpthread.Copy.Opcodes.{
  Code, op_size, op_at, sign_extend, literal_address, relocate_literal, relocate_jump,
}

-- The memory of a copied function, of `last` opcodes and `n` literals: on 64 bits the literals lie behind
-- the opcodes, in one block.
pub record IsBlock (abs : Bool) (c : Code) (last n : ℕ) : Type 0 where
  pub behind : abs ≡ false → c.literals ≡ c.opcodes + 32 * last
  pub small : abs ≡ false → 32 * last + 16 * n ≤ 2147483648
  pub ops_end : c.opcodes + op_size abs * last ≤ (if abs then 4294967296 else 18446744073709551616)
  pub literals_end : c.literals + 16 * n ≤ (if abs then 4294967296 else 18446744073709551616)

-- An operand refers to the `k`-th literal.
abbrev pub RefersTo : Bool → Code → (i k w : ℕ) → Type 0
RefersTo abs c i k w = literal_address abs (op_at abs c i) w ≡ c.literals + 16 * k

div_step : (base k : ℕ) → ((base + 16 * k) - base) / 16 ≡ k
div_step base k = omega arith

low_bits : (d : ℕ) → d < 2147483648 → (d + 18446744073709551616) % 4294967296 ≡ d
low_bits d h = omega arith

sign_extend_small : (d : ℕ) → d < 2147483648 → sign_extend d ≡ d
sign_extend_small d h = ground arith

abbrev distance_to : Code → (i k : ℕ) → ℕ
distance_to c i k = (c.literals + 16 * k) - op_at false c i

abbrev literal_index : Code → (i w : ℕ) → ℕ
literal_index c i w = (literal_address false (op_at false c i) w - c.literals) / 16

literal_index-RefersTo : (c : Code) (i k w : ℕ) → RefersTo false c i k w → literal_index c i w ≡ k
literal_index-RefersTo c i k w r = ap (λ a. (a - c.literals) / 16) r ∙ div_step c.literals k

relocated_word :
    (old new : Code) (last n i k w : ℕ)
    → IsBlock false new last n
    → i < last
    → k < n
    → literal_index old i w ≡ k
    → relocate_literal false old new i w ≡ distance_to new i k
relocated_word old new last n i k w b li lk r =
    let near = b.small refl in
    let there = b.behind refl in
    ap (λ j. (new.literals + 16 * j + (18446744073709551616 - op_at false new i)) % 4294967296) r
    ∙ omega (arith, near, there, b.ops_end, li, lk)

relocated_rel :
    (old new : Code) (last n i k w : ℕ)
    → IsBlock false new last n
    → i < last
    → k < n
    → RefersTo false old i k w
    → RefersTo false new i k (relocate_literal false old new i w)
relocated_rel old new last n i k w b li lk r =
    let near = b.small refl in
    let there = b.behind refl in
    let d = distance_to new i k in
    ap (literal_address false (op_at false new i))
      (relocated_word old new last n i k w b li lk (literal_index-RefersTo old i k w r))
    ∙ ap (λ x. (op_at false new i + x) % 18446744073709551616)
        (sign_extend_small d (omega (arith, near, there, li, lk)))
    ∙ omega (arith, near, there, b.literals_end, li, lk)

relocated_abs :
    (old new : Code) (last n i k w : ℕ)
    → IsBlock true new last n
    → old.literals + 16 * n ≤ 4294967296
    → k < n
    → RefersTo true old i k w
    → RefersTo true new i k (relocate_literal true old new i w)
relocated_abs old new last n i k w b o lk r = omega (arith, b.literals_end, o, lk, r)

-- The literals lie in the memory that the addresses can name.
abbrev pub IsTable : Bool → Code → ℕ → Type 0
IsTable abs c n = c.literals + 16 * n ≤ (if abs then 4294967296 else 18446744073709551616)

-- A literal that is referred to before is referred to after.
pub relocate_literal-RefersTo :
    (abs : Bool) (old new : Code) (last n i k w : ℕ)
    → IsBlock abs new last n
    → IsTable abs old n
    → i < last
    → k < n
    → RefersTo abs old i k w
    → RefersTo abs new i k (relocate_literal abs old new i w)
relocate_literal-RefersTo true old new last n i k w b o li lk r =
    relocated_abs old new last n i k w b o lk r
relocate_literal-RefersTo false old new last n i k w b o li lk r =
    relocated_rel old new last n i k w b li lk r

pub relocate_jump_lem :
    (old new : Code) (last n j w : ℕ)
    → IsBlock true new last n
    → j < last
    → w ≡ old.opcodes + 28 * j
    → relocate_jump old new w ≡ new.opcodes + 28 * j
relocate_jump_lem old new last n j w b lj r =
    ap (relocate_jump old new) r
    ∙ ap (λ x. (new.opcodes + 28 * x) % 4294967296) (jump_step old.opcodes j)
    ∙ omega (arith, b.ops_end, lj)
  where
    jump_step : (base k : ℕ) → ((base + 28 * k) - base) / 28 ≡ k
    jump_step base k = omega arith
