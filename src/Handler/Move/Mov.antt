-- ===== src/Handler/Move/Mov.antt =====
-- What MOV leaves in a register and in memory.
use weeper_vm.Base.{
  ℕ, zero, suc, ◌+◌, ◌*◌, ◌/◌, ◌%◌, ◌≤◌, ◌<◌, ◌≡◌, refl, arith, ◌≢◌, false, ◌==◌, ok, bit_or,
  ltb-true,
}
use weeper_vm.Base.Bits.{and_low, or_join}
use weeper_vm.Machine.{Machine, vmem_size, vmem_at, vreg_at, vreg_set}
use weeper_vm.Memory.{pre_v_truncation, v_null, v_int}
use weeper_vm.Memory.Mask.{and-0xffffff00, and-0xffff0000}
use weeper_vm.Memory.Words.{write_expanded}
use weeper_vm.Operand.{
  Operand, op_reg, op_mem, operand_byte, calculate_memory_offset, get_operand_data,
}
use weeper_vm.Handler.Write.{write_reg, write_mem, write_back}
use weeper_vm.Handler.Move.{handle_mov, handle_lea, lea_value}
use weeper_vm.Handler.Arith.Reg.{IsSize, span, with_reg}
use weeper_vm.Handler.Arith.Memory.{with_bytes}
use weeper_vm.Invariant.{IsWord, IsWf}

-- The low part of a register replaced by a value that fits it.
pub pre_v_truncation-or :
    (v reg x : ℕ)
    → IsSize v
    → IsWord reg
    → x < span v
    → bit_or (pre_v_truncation reg v) x ≡ reg / span v * span v + x
unfolding pre_v_truncation
pre_v_truncation-or zero reg x h hr hx = absurd (omega arith)
pre_v_truncation-or (suc zero) reg x h hr hx =
    ground (arith, and-0xffffff00 reg hr, or_join 8 (reg / 256) x)
pre_v_truncation-or (suc (suc zero)) reg x h hr hx =
    ground (arith, and-0xffff0000 reg hr, or_join 16 (reg / 65536) x)
pre_v_truncation-or (suc (suc (suc zero))) reg x h hr hx = ground (arith, or_join 32 0 x)
pre_v_truncation-or (suc (suc (suc (suc v)))) reg x h hr hx = absurd (omega arith)

fits : (v x : ℕ) → IsSize v → x < 256 → x < span v
fits zero x h k = absurd (omega arith)
fits (suc zero) x h k = omega arith
fits (suc (suc zero)) x h k = omega arith
fits (suc (suc (suc zero))) x h k = omega arith
fits (suc (suc (suc (suc v)))) x h k = absurd (omega arith)

null_false : (v : ℕ) → v ≢ v_null → (v == v_null) ≡ false
null_false v h = ground arith

module _ {m : Machine} (wf : IsWf m) (op : Operand) (x : ℕ) (size : IsSize op.v) where
  pub write_reg-eq :
      (d0 : ℕ)
      → operand_byte m op 0 ≡ ok d0
      → x < span op.v
      → (let r = d0 % 16 in
          let w = span op.v in write_reg m op op.v x ≡ ok (with_reg m r (m.vregs r / w * w + x)))
  unfolding write_reg vreg_at vreg_set
  write_reg-eq d0 byte fits =
      rw
        (
          byte,
          and_low 4 d0,
          ltb-true (d0 % 16) 16 (omega arith),
          pre_v_truncation-or op.v (m.vregs (d0 % 16)) x size (wf.reg_words (d0 % 16)) fits,
        )
        refl

  pub write_back-reg :
      (d0 e trash : ℕ)
      → op.t ≡ op_reg
      → operand_byte m op 0 ≡ ok d0
      → x < span op.v
      → (let r = d0 % 16 in
          let w = span op.v in
          write_back m op e op.v x trash ≡ ok (with_reg m r (m.vregs r / w * w + x)))
  unfolding write_back
  write_back-reg d0 e trash is_reg byte fits = simp is_reg (write_reg-eq d0 byte fits)

  pub write_back-mem :
      (a trash : ℕ)
      → op.t ≡ op_mem
      → calculate_memory_offset m op ≡ ok a
      → a + 4 ≤ vmem_size
      → write_back m op op.v op.v x trash ≡ ok (with_bytes m op.v a x)
  unfolding write_back write_mem
  write_back-mem a trash is_mem place room =
      simp is_mem (rw place (write_expanded m a x op.v trash (omega arith) room))

-- MOV to a register, from a well-formed state, of a value that fits the size of the destination: the
-- value replaces the low part of the register, and nothing else changes.
pub handle_mov-reg :
    (m : Machine) (op1 op2 : Operand) (d0 x : ℕ)
    → IsWf m
    → op1.t ≡ op_reg
    → IsSize op1.v
    → operand_byte m op1 0 ≡ ok d0
    → get_operand_data m 0x37 op2 ≡ ok x
    → x < span op1.v
    → (let r = d0 % 16 in
        let w = span op1.v in handle_mov m op1 op2 ≡ ok (with_reg m r (m.vregs r / w * w + x)))
unfolding handle_mov
handle_mov-reg m op1 op2 d0 x wf is_reg size byte ex fits =
    rw ex (write_back-reg wf op1 x size d0 op1.v 0xd9 is_reg byte fits)

-- MOV to memory, from a well-formed state and with the four bytes from the address on inside: the
-- bytes of the value at the size of the destination, the highest first, replace those at the
-- address, and nothing else changes.
pub handle_mov-mem :
    (m : Machine) (op1 op2 : Operand) (a x : ℕ)
    → IsWf m
    → op1.t ≡ op_mem
    → IsSize op1.v
    → calculate_memory_offset m op1 ≡ ok a
    → a + 4 ≤ vmem_size
    → get_operand_data m 0x37 op2 ≡ ok x
    → handle_mov m op1 op2 ≡ ok (with_bytes m op1.v a x)
unfolding handle_mov
handle_mov-mem m op1 op2 a x wf is_mem size place room ex =
    rw ex (write_back-mem wf op1 x size a 0xd9 is_mem place room)

-- LEA to a register, from a well-formed state, of a source whose size is not null: the single byte
-- at the address replaces the low part of the register, also where the source is a short or an int.
pub handle_lea-byte :
    (m : Machine) (op1 op2 : Operand) (d0 a : ℕ)
    → IsWf m
    → op1.t ≡ op_reg
    → IsSize op1.v
    → operand_byte m op1 0 ≡ ok d0
    → op2.v ≢ v_null
    → get_operand_data m 0x1d (record op2 { v = v_int }) ≡ ok a
    → a < vmem_size
    → (let r = d0 % 16 in
        let w = span op1.v in
        handle_lea m op1 op2 ≡ ok (with_reg m r (m.vregs r / w * w + m.vmem a)))
unfolding handle_lea lea_value vmem_at
handle_lea-byte m op1 op2 d0 a wf is_reg size byte sized ea inside =
    simp (ea, is_reg, null_false op2.v sized, ltb-true a vmem_size inside)
      (write_reg-eq wf op1 (m.vmem a) size d0 byte (fits op1.v (m.vmem a) size (wf.mem_bytes a)))
