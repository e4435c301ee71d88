-- ===== src/Handler/Arith/Reg.antt =====
-- What the arithmetic instructions leave in a register.
use weeper_vm.Base.{
  ℕ, zero, suc, ◌+◌, ◌-◌, ◌*◌, ◌/◌, ◌%◌, ◌^◌, ◌≤◌, ◌≡◌, refl, arith, ok, bit_or, ◌∙◌, ap, ap₂,
  ensured, ltb-true, sub32,
}
use native.Mathlib.Nat.{add-mul-mod_self_left}
use weeper_vm.Base.Bits.{and_low, or_join}
use weeper_vm.Machine.{Machine, update, vreg_at, vreg_set}
use weeper_vm.Memory.{pre_v_truncation, post_v_truncation}
use weeper_vm.Memory.Mask.{and-0xff, and-0xffff, and-0xffffffff, and-0xffffff00, and-0xffff0000}
use weeper_vm.Memory.Store.{size_of}
use weeper_vm.Operand.{Operand, op_reg, operand_byte, get_operand_data}
use weeper_vm.Handler.Arith.{
  Operator, alu_reg, alu, add32, minus32, mul32, handle_add, handle_sub, handle_mul,
}
use weeper_vm.Invariant.{IsWord, IsWf}
use weeper_vm.Invariant.Read.{get_operand_data-IsWord}

-- One more than the greatest value of size `v`.
abbrev pub span : ℕ → ℕ
span v = 256 ^ size_of v

-- `reg` with its part of size `v` replaced by that of `x`.
abbrev pub merge : ℕ → ℕ → ℕ → ℕ
merge v reg x = reg / span v * span v + x % span v

-- One of the three sizes that a register can be written at.
abbrev pub IsSize : ℕ → Type 0
IsSize v = (1 ≤ v) × (v ≤ 3)

combine :
    (v reg x : ℕ)
    → IsSize v
    → IsWord reg
    → bit_or (pre_v_truncation reg v) (post_v_truncation x v) ≡ merge v reg x
unfolding pre_v_truncation post_v_truncation
combine zero reg x h hr = absurd (omega arith)
combine (suc zero) reg x h hr =
    ground (arith, and-0xffffff00 reg hr, and-0xff x, or_join 8 (reg / 256) (x % 256))
combine (suc (suc zero)) reg x h hr =
    ground (arith, and-0xffff0000 reg hr, and-0xffff x, or_join 16 (reg / 65536) (x % 65536))
combine (suc (suc (suc zero))) reg x h hr =
    ground (arith, and-0xffffffff x, or_join 32 0 (x % 2 ^ 32))
combine (suc (suc (suc (suc v)))) reg x h hr = absurd (omega arith)

-- The register that the operand's first byte names, and the state with it changed.
abbrev pub with_reg : Machine → ℕ → ℕ → Machine
with_reg m r x = record m { vregs = update m.vregs r x }

module _ {m : Machine} (wf : IsWf m) (op1 op2 : Operand) (d0 src : ℕ) (is_reg : op1.t ≡ op_reg)
    (size : IsSize op1.v) (byte : operand_byte m op1 0 ≡ ok d0) where
  -- The register destination of any operator.
  pub alu_reg-merge :
      (f : Operator) (res : ℕ)
      → f (m.vregs (d0 % 16)) src ≡ ok res
      → alu_reg f m op1 src ≡ ok (with_reg m (d0 % 16) (merge op1.v (m.vregs (d0 % 16)) res))
  unfolding alu_reg vreg_at vreg_set
  alu_reg-merge f res e = rw (
    byte,
    and_low 4 d0,
    ltb-true (d0 % 16) 16 (omega arith),
    e,
    combine op1.v (m.vregs (d0 % 16)) res size (wf.reg_words (d0 % 16)),
  )

  pub alu-merge :
      (rt wt : ℕ) (f g : Operator) (res : ℕ)
      → get_operand_data m rt op2 ≡ ok src
      → f (m.vregs (d0 % 16)) src ≡ ok res
      → alu rt wt f g m op1 op2 ≡ ok (with_reg m (d0 % 16) (merge op1.v (m.vregs (d0 % 16)) res))
  unfolding alu
  alu-merge rt wt f g res es e = simp (es, is_reg) (alu_reg-merge f res e)

-- Arithmetic modulo 2 ^ 32 is arithmetic on the low parts.
pub mod_span : (v x : ℕ) → IsSize v → x % 2 ^ 32 % span v ≡ x % span v
mod_span zero x h = absurd (omega arith)
mod_span (suc zero) x h = omega arith
mod_span (suc (suc zero)) x h = omega arith
mod_span (suc (suc (suc zero))) x h = omega arith
mod_span (suc (suc (suc (suc v)))) x h = absurd (omega arith)

add_span : (v a b : ℕ) → IsSize v → (a + b) % 2 ^ 32 % span v ≡ (a % span v + b % span v) % span v
add_span zero a b h = absurd (omega arith)
add_span (suc zero) a b h = omega arith
add_span (suc (suc zero)) a b h = omega arith
add_span (suc (suc (suc zero))) a b h = omega arith
add_span (suc (suc (suc (suc v)))) a b h = absurd (omega arith)

pub sub_span :
    (v a b : ℕ)
    → IsSize v
    → IsWord b
    → sub32 a b % span v ≡ (a % span v + span v - b % span v) % span v
sub_span zero a b h hb = absurd (omega arith)
sub_span (suc zero) a b h hb = omega arith
sub_span (suc (suc zero)) a b h hb = omega arith
sub_span (suc (suc (suc zero))) a b h hb = omega arith
sub_span (suc (suc (suc (suc v)))) a b h hb = absurd (omega arith)

mul_parts :
    (s qa ra qb rb : ℕ)
    → (qa * s + ra) * (qb * s + rb) ≡ ra * rb + s * (qa * (qb * s + rb) + ra * qb)
mul_parts s qa ra qb rb = omega arith

pub mul-mod-mod : (s a b : ℕ) → a * b % s ≡ a % s * (b % s) % s
mul-mod-mod s a b =
    let qa = a / s in
    let qb = b / s in
    let ea : a ≡ qa * s + a % s = omega arith in
    let eb : b ≡ qb * s + b % s = omega arith in
    let e : a * b ≡ (qa * s + a % s) * (qb * s + b % s) = ap₂ ◌*◌ ea eb in
    ap (λ (t : ℕ). t % s) (e ∙ mul_parts s qa (a % s) qb (b % s))
    ∙ add-mul-mod_self_left (a % s * (b % s)) s (qa * (qb * s + b % s) + a % s * qb)

-- ADD, SUB and MUL on a register, from a well-formed state, are arithmetic of the width that the
-- size names, on the low parts of the register and of the source: the result, cut to that width,
-- replaces the low part of the register, and no other bit of it, no other register and nothing
-- else of the state changes.
pub alu-in_width :
    (m : Machine) (op1 op2 : Operand) (d0 a b c : ℕ)
    → IsWf m
    → op1.t ≡ op_reg
    → IsSize op1.v
    → operand_byte m op1 0 ≡ ok d0
    → get_operand_data m 0x9e op2 ≡ ok a
    → get_operand_data m 0x0f op2 ≡ ok b
    → get_operand_data m 0x2f op2 ≡ ok c
    → (let r = d0 % 16 in
        let reg = m.vregs r in
        let w = span op1.v in
        (handle_add m op1 op2 ≡ ok (with_reg m r (reg / w * w + (reg % w + a % w) % w)))
        × (handle_sub m op1 op2 ≡ ok (with_reg m r (reg / w * w + (reg % w + w - b % w) % w)))
        × (handle_mul m op1 op2 ≡ ok (with_reg m r (reg / w * w + reg % w * (c % w) % w))))
unfolding handle_add handle_sub handle_mul add32 minus32 mul32
alu-in_width m op1 op2 d0 a b c wf is_reg size byte ea eb ec = (
  alu-merge wf op1 op2 d0 a is_reg size byte _ _ add32 _ _ ea refl
      ∙ put (add_span op1.v reg a size),
  alu-merge wf op1 op2 d0 b is_reg size byte _ _ minus32 _ _ eb refl
      ∙ put (sub_span op1.v reg b size (ensured (get_operand_data-IsWord wf 0x0f op2) eb)),
  alu-merge wf op1 op2 d0 c is_reg size byte _ _ mul32 _ _ ec refl
      ∙ put (mod_span op1.v (reg * c) size ∙ mul-mod-mod (span op1.v) reg c),
)
  where
    reg : ℕ
    reg = m.vregs (d0 % 16)

    put :
        {x y : ℕ}
        → x ≡ y
        → ok (with_reg m (d0 % 16) (reg / span op1.v * span op1.v + x))
          ≡ ok (with_reg m (d0 % 16) (reg / span op1.v * span op1.v + y))
    put e = ap (λ t. ok (with_reg m (d0 % 16) (reg / span op1.v * span op1.v + t))) e
