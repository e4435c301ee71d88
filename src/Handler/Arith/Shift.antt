-- ===== src/Handler/Arith/Shift.antt =====
-- What the shifts and the divisions leave in a register, and where they are undefined.
use weeper_vm.Base.{
  ℕ, ◌*◌, ◌/◌, ◌%◌, ◌^◌, ◌≡◌, refl, arith, Run, ok, exited, undefined, ◌>>=◌, ◌∙◌, ap, Bool, true,
  false, ltb-true, ltb, ◌==◌, if◌then◌else◌,
}
use weeper_vm.Base.Bits.{and_low}
use weeper_vm.Machine.{Machine, vreg_at}
use weeper_vm.Operand.{Operand, op_reg, operand_byte, get_operand_data}
use weeper_vm.Handler.Arith.{
  Operator, alu_reg, alu, div32, mod32, shl32, shr32, handle_div, handle_mod, handle_shl,
  handle_shr,
}
use weeper_vm.Handler.Arith.Reg.{span, IsSize, with_reg, merge, alu-merge, mod_span, mul-mod-mod}
use weeper_vm.Handler.Arith.Bitwise.{with_low}
use weeper_vm.Invariant.{IsWf}

module _ {m : Machine} (wf : IsWf m) (op1 op2 : Operand) (d0 src : ℕ) (is_reg : op1.t ≡ op_reg)
    (size : IsSize op1.v) (byte : operand_byte m op1 0 ≡ ok d0) where
  abbrev merged : ℕ → Run Machine
  merged res = ok (with_reg m (d0 % 16) (merge op1.v (m.vregs (d0 % 16)) res))

  -- Whatever the operator gives, the instruction does.
  alu-any :
      (rt wt : ℕ) (f g : Operator) (x : Run ℕ)
      → get_operand_data m rt op2 ≡ ok src
      → f (m.vregs (d0 % 16)) src ≡ x
      → alu rt wt f g m op1 op2 ≡ (x >>= merged)
  unfolding alu alu_reg vreg_at
  alu-any rt wt f g (ok res) es e = alu-merge wf op1 op2 d0 src is_reg size byte rt wt f g res es e
  alu-any rt wt f g (exited c) es e =
      simp (es, is_reg) (rw (byte, and_low 4 d0, ltb-true (d0 % 16) 16 (omega arith), e) refl)
  alu-any rt wt f g undefined es e =
      simp (es, is_reg) (rw (byte, and_low 4 d0, ltb-true (d0 % 16) 16 (omega arith), e) refl)

-- A result if the test holds.
abbrev pub where_defined : Bool → Machine → Run Machine
where_defined b m' = if b then ok m' else undefined

guarded :
    (b : Bool) (x : ℕ) (f : ℕ → Run Machine)
    → ((if b then ok x else undefined) >>= f) ≡ (if b then f x else undefined)
guarded true x f = refl
guarded false x f = refl

guarded_not :
    (b : Bool) (x : ℕ) (f : ℕ → Run Machine)
    → ((if b then undefined else ok x) >>= f) ≡ (if b then undefined else f x)
guarded_not true x f = refl
guarded_not false x f = refl

-- SHL, SHR, DIV and MOD on a register, from a well-formed state. SHL shifts the low part of the
-- width that the size names; SHR, DIV and MOD work on the whole register, and their result is cut
-- to that width. It replaces the low part of the register, and nothing else of the state changes.
-- A shift by 32 or more and a division by 0 are undefined.
pub shift-divide :
    (m : Machine) (op1 op2 : Operand) (d0 a b c d : ℕ)
    → IsWf m
    → op1.t ≡ op_reg
    → IsSize op1.v
    → operand_byte m op1 0 ≡ ok d0
    → get_operand_data m 0x69 op2 ≡ ok a
    → get_operand_data m 0x24 op2 ≡ ok b
    → get_operand_data m 0xaa op2 ≡ ok c
    → get_operand_data m 0x60 op2 ≡ ok d
    → (let r = d0 % 16 in
        let reg = m.vregs r in
        let w = span op1.v in
        (handle_shl m op1 op2
          ≡ (if ltb a 32 then ok (with_low m op1.v r (reg % w * (2 ^ a % w) % w)) else undefined))
        × (handle_shr m op1 op2
            ≡ (if ltb b 32 then ok (with_low m op1.v r (reg / 2 ^ b % w)) else undefined))
        × (handle_div m op1 op2
            ≡ (if c == 0 then undefined else ok (with_low m op1.v r (reg / c % w))))
        × (handle_mod m op1 op2
            ≡ (if d == 0 then undefined else ok (with_low m op1.v r (reg % d % w)))))
unfolding handle_shl handle_shr handle_div handle_mod shl32 shr32 div32 mod32
shift-divide m op1 op2 d0 a b c d wf is_reg size byte ea eb ec ed =
    let r = d0 % 16 in
    let reg = m.vregs r in
    let w = span op1.v in
    (
      alu-any wf op1 op2 d0 a is_reg size byte _ _ shl32 _ _ ea refl
          ∙ guarded (ltb a 32) _ _
          ∙ ap (λ (t : ℕ). if ltb a 32 then ok (with_low m op1.v r t) else undefined)
              (mod_span op1.v (reg * 2 ^ a) size ∙ mul-mod-mod w reg (2 ^ a)),
      alu-any wf op1 op2 d0 b is_reg size byte _ _ shr32 _ _ eb refl ∙ guarded (ltb b 32) _ _,
      alu-any wf op1 op2 d0 c is_reg size byte _ _ div32 _ _ ec refl ∙ guarded_not (c == 0) _ _,
      alu-any wf op1 op2 d0 d is_reg size byte _ _ mod32 _ _ ed refl ∙ guarded_not (d == 0) _ _,
    )
