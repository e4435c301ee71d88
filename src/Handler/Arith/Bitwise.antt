-- ===== src/Handler/Arith/Bitwise.antt =====
-- What the bitwise instructions, the shifts and the divisions leave in a register.
use weeper_vm.Base.{
  ℕ, zero, suc, ◌+◌, ◌-◌, ◌*◌, ◌/◌, ◌%◌, ◌^◌, ◌<◌, ◌≡◌, refl, arith, ok, bit_and, bit_or, bit_xor,
  ◌∙◌, ap, ap₂, ensured, not32,
}
use native.Mathlib.Nat.{one-le-pow, mod-eq_of_lt, mul-add-mod_self_right}
use weeper_vm.Base.Bits.{and_split, or_split, xor_split, or-lt, xor-lt, and-le}
use weeper_vm.Machine.{Machine}
use weeper_vm.Operand.{Operand, op_reg, operand_byte, get_operand_data}
use weeper_vm.Handler.Arith.{handle_and, handle_or, handle_xor, handle_not}
use weeper_vm.Handler.Arith.Reg.{span, IsSize, with_reg, alu-merge, alu_reg-merge}
use weeper_vm.Invariant.{IsWord, IsWf}
use weeper_vm.Invariant.Read.{get_operand_data-IsWord}

-- A bitwise operator works on the parts of numbers.
module _ (f : ℕ → ℕ → ℕ)
    (split : (k a b c d : ℕ)
      → c < 2 ^ k
      → d < 2 ^ k
      → f (a * 2 ^ k + c) (b * 2 ^ k + d) ≡ f a b * 2 ^ k + f c d)
    (small : (k a b : ℕ) → a < 2 ^ k → b < 2 ^ k → f a b < 2 ^ k) where
  low_part : (k a b : ℕ) → f a b % 2 ^ k ≡ f (a % 2 ^ k) (b % 2 ^ k)
  low_part k a b =
      let ha : a % 2 ^ k < 2 ^ k = omega (arith, one-le-pow k 2 (omega arith)) in
      let hb : b % 2 ^ k < 2 ^ k = omega (arith, one-le-pow k 2 (omega arith)) in
      let ea : a ≡ a / 2 ^ k * 2 ^ k + a % 2 ^ k = omega arith in
      let eb : b ≡ b / 2 ^ k * 2 ^ k + b % 2 ^ k = omega arith in
      ap (λ (t : ℕ). t % 2 ^ k)
        (ap₂ f ea eb ∙ split k (a / 2 ^ k) (b / 2 ^ k) (a % 2 ^ k) (b % 2 ^ k) ha hb)
      ∙ mul-add-mod_self_right (f (a / 2 ^ k) (b / 2 ^ k)) (2 ^ k) (f (a % 2 ^ k) (b % 2 ^ k))
      ∙ mod-eq_of_lt (small k (a % 2 ^ k) (b % 2 ^ k) ha hb)

  pub span_part : (v a b : ℕ) → IsSize v → f a b % span v ≡ f (a % span v) (b % span v)
  span_part zero a b h = absurd (omega arith)
  span_part (suc zero) a b h = low_part 8 a b
  span_part (suc (suc zero)) a b h = low_part 16 a b
  span_part (suc (suc (suc zero))) a b h = low_part 32 a b
  span_part (suc (suc (suc (suc v)))) a b h = absurd (omega arith)

pub and-lt : (k a b : ℕ) → a < 2 ^ k → b < 2 ^ k → bit_and a b < 2 ^ k
and-lt k a b ha hb = omega (arith, and-le a b)

pub not_span : (v x : ℕ) → IsSize v → IsWord x → not32 x % span v ≡ span v - 1 - x % span v
not_span zero x h hx = absurd (omega arith)
not_span (suc zero) x h hx = omega arith
not_span (suc (suc zero)) x h hx = omega arith
not_span (suc (suc (suc zero))) x h hx = omega arith
not_span (suc (suc (suc (suc v)))) x h hx = absurd (omega arith)

-- The state with the low part of register `r` replaced.
abbrev pub with_low : Machine → (v r x : ℕ) → Machine
with_low m v r x = with_reg m r (m.vregs r / span v * span v + x)

put : (m : Machine) (v r : ℕ) {x y : ℕ} → x ≡ y → ok (with_low m v r x) ≡ ok (with_low m v r y)
put m v r e = ap (λ t. ok (with_low m v r t)) e

-- AND, OR, XOR and NOT on a register, from a well-formed state, work on the bits of the width that
-- the size names: the result of the low parts of the register and of the source replaces the low
-- part of the register, and nothing else of the state changes.
pub bitwise-in_width :
    (m : Machine) (op1 op2 : Operand) (d0 a b c d : ℕ)
    → IsWf m
    → op1.t ≡ op_reg
    → IsSize op1.v
    → operand_byte m op1 0 ≡ ok d0
    → get_operand_data m 0x3d op2 ≡ ok a
    → get_operand_data m 0x38 op2 ≡ ok b
    → get_operand_data m 0x18 op2 ≡ ok c
    → get_operand_data m 0x1d op2 ≡ ok d
    → (let r = d0 % 16 in
        let w = span op1.v in
        let low = m.vregs r % w in
        (handle_and m op1 op2 ≡ ok (with_low m op1.v r (bit_and low (a % w))))
        × (handle_or m op1 op2 ≡ ok (with_low m op1.v r (bit_or low (b % w))))
        × (handle_xor m op1 op2 ≡ ok (with_low m op1.v r (bit_xor low (c % w))))
        × (handle_not m op1 op2 ≡ ok (with_low m op1.v r (w - 1 - d % w))))
unfolding handle_and handle_or handle_xor handle_not
bitwise-in_width m op1 op2 d0 a b c d wf is_reg size byte ea eb ec ed =
    let r = d0 % 16 in
    let reg = m.vregs r in
    (
      alu-merge wf op1 op2 d0 a is_reg size byte _ _ (λ x y. ok (bit_and x y)) _ _ ea refl
          ∙ put m op1.v r (span_part bit_and and_split and-lt op1.v reg a size),
      alu-merge wf op1 op2 d0 b is_reg size byte _ _ (λ x y. ok (bit_or x y)) _ _ eb refl
          ∙ put m op1.v r (span_part bit_or or_split or-lt op1.v reg b size),
      alu-merge wf op1 op2 d0 c is_reg size byte _ _ (λ x y. ok (bit_xor x y)) _ _ ec refl
          ∙ put m op1.v r (span_part bit_xor xor_split xor-lt op1.v reg c size),
      simp (ed, is_reg)
            (alu_reg-merge wf op1 op2 d0 d is_reg size byte (λ x y. ok (not32 y)) (not32 d) refl)
          ∙ put m op1.v r
              (not_span op1.v d size (ensured (get_operand_data-IsWord wf 0x1d op2) ed)),
    )
