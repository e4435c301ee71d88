-- ===== src/Handler/Arith.antt =====
-- The arithmetic and the bitwise instructions.
pub mod Reg
pub mod Memory
pub mod Bitwise
pub mod Shift
pub mod BitMemory
pub mod DivMemory
use weeper_vm.Base.{
  ℕ, ◌+◌, ◌*◌, ◌/◌, ◌%◌, bit_and, bit_or, bit_xor, Run, ok, undefined, ◌>>=◌, u32, sub32, not32,
  ◌<<<◌, ◌>>>◌, ltb, ◌==◌, if◌then◌else◌,
}
use weeper_vm.Machine.{Machine, vmem_at, vreg_at, vreg_set}
use weeper_vm.Memory.{
  v_byte, v_short, post_v_truncation, pre_v_truncation, vmem_expansion, write_to_vmem,
}
use weeper_vm.Operand.{
  Operand, op_reg, op_mem, operand_byte, calculate_memory_offset, vmem_value, get_operand_data,
}
use weeper_vm.Handler.Write.{write_mem}

-- The C operators on `uint32_t`, undefined where C says so.
unfoldable pub add32 : ℕ → ℕ → Run ℕ
add32 a b = ok (u32 (a + b))

unfoldable pub minus32 : ℕ → ℕ → Run ℕ
minus32 a b = ok (sub32 a b)

unfoldable pub mul32 : ℕ → ℕ → Run ℕ
mul32 a b = ok (u32 (a * b))

unfoldable pub div32 : ℕ → ℕ → Run ℕ
div32 a b = if b == 0 then undefined else ok (a / b)

unfoldable pub mod32 : ℕ → ℕ → Run ℕ
mod32 a b = if b == 0 then undefined else ok (a % b)

unfoldable pub shl32 : ℕ → ℕ → Run ℕ
shl32 a b = if ltb b 32 then ok (u32 (a <<< b)) else undefined

unfoldable pub shr32 : ℕ → ℕ → Run ℕ
shr32 a b = if ltb b 32 then ok (a >>> b) else undefined

abbrev pub Operator : Type 0
Operator = ℕ → ℕ → Run ℕ

-- The register destination: the operator takes the whole register, and its result is truncated.
unfoldable pub alu_reg : Operator → Machine → Operand → ℕ → Run Machine
alu_reg f m op src = do
  d0 ← operand_byte m op 0
  let r = bit_and d0 0x0f
  reg ← vreg_at m r
  res ← f reg src
  vreg_set m r (bit_or (pre_v_truncation reg op.v) (post_v_truncation res op.v))

-- The memory destination: the operator takes as many bytes as the size says.
unfoldable pub alu_mem : Operator → Machine → Operand → (src trash : ℕ) → Run Machine
alu_mem f m op src trash = do
  a ← calculate_memory_offset m op
  cur ← vmem_value m op.v a
  res ← f cur src
  res' ← vmem_expansion m a res op.v
  write_to_vmem m a res' op.v trash

-- The text that ADD to SHR have in common, with the junk of the read and of the write, the operator
-- on the register and the source, and the operator on the memory and the source.
unfoldable pub alu :
    (read_trash write_trash : ℕ)
    → (on_reg on_mem : Operator) → Machine
    → Operand
    → Operand
    → Run Machine
alu read_trash write_trash on_reg on_mem m op1 op2 = do
  src ← get_operand_data m read_trash op2
  if op1.t == op_reg
      then alu_reg on_reg m op1 src
      else if op1.t == op_mem
      then alu_mem on_mem m op1 src write_trash
      else ok m

unfoldable pub handle_add : Machine → Operand → Operand → Run Machine
handle_add = alu 0x9e 0xc5 add32 (λ cur src. add32 src cur)

unfoldable pub handle_sub : Machine → Operand → Operand → Run Machine
handle_sub = alu 0x0f 0xcc minus32 minus32

unfoldable pub handle_mul : Machine → Operand → Operand → Run Machine
handle_mul = alu 0x2f 0x93 mul32 (λ cur src. mul32 src cur)

unfoldable pub handle_div : Machine → Operand → Operand → Run Machine
handle_div = alu 0xaa 0x2b div32 div32

unfoldable pub handle_mod : Machine → Operand → Operand → Run Machine
handle_mod = alu 0x60 0xb8 mod32 mod32

unfoldable pub handle_and : Machine → Operand → Operand → Run Machine
handle_and = alu 0x3d 0xde (λ reg src. ok (bit_and reg src)) (λ cur src. ok (bit_and src cur))

unfoldable pub handle_or : Machine → Operand → Operand → Run Machine
handle_or = alu 0x38 0xa2 (λ reg src. ok (bit_or reg src)) (λ cur src. ok (bit_or src cur))

unfoldable pub handle_xor : Machine → Operand → Operand → Run Machine
handle_xor = alu 0x18 0x7b (λ reg src. ok (bit_xor reg src)) (λ cur src. ok (bit_xor src cur))

-- In memory the source is shifted by the destination, and not the other way round.
unfoldable pub handle_shl : Machine → Operand → Operand → Run Machine
handle_shl = alu 0x69 0x8d shl32 (λ cur src. shl32 src cur)

unfoldable pub handle_shr : Machine → Operand → Operand → Run Machine
handle_shr = alu 0x24 0x51 shr32 (λ cur src. shr32 src cur)

unfoldable pub handle_not : Machine → Operand → Operand → Run Machine
handle_not m op1 op2 = do
  src ← get_operand_data m 0x1d op2
  let res = not32 src
  if op1.t == op_reg
      then alu_reg (λ reg src. ok (not32 src)) m op1 src
      else if op1.t == op_mem
      then write_mem m op1 op1.v op1.v res 0xa2
      else ok m
