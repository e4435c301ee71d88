-- ===== src/Handler/Move.antt =====
-- MOV, LEA, PUT and GET.
pub mod Scan
pub mod Locals
pub mod Mov
use weeper_vm.Base.{
  ℕ, zero, suc, ◌+◌, ◌-◌, ◌*◌, bit_and, bit_or, bit_xor, Run, ok, undefined, ◌>>=◌, u32, ◌<<<◌,
  ◌>>>◌, ltb, not, ◌&&◌, ◌==◌, if◌then◌else◌,
}
use weeper_vm.Stack.{minus_one, stack_peek}
use weeper_vm.Machine.{Machine, vmem_at, vmem_local_lo, vmem_stack_lo, vmem_stack_hi}
use weeper_vm.Memory.{v_byte, v_short, v_int, write_to_vmem}
use weeper_vm.Operand.{
  Operand, op_reg, op_mem, calculate_memory_offset, vmem_short, vmem_int, vmem_value,
  get_operand_data,
}
use weeper_vm.Handler.Write.{write_reg, write_back}

-- The loop of `fnv1a_hash`, with the rounds that are left.
unfoldable pub fnv1a_rounds : ℕ → ℕ → ℕ → ℕ → ℕ
fnv1a_rounds zero i base h = h
fnv1a_rounds (suc left) i base h =
    fnv1a_rounds left (i + 1) base (u32 (bit_xor h (base >>> (i * 8)) * 0x3466875))

unfoldable pub fnv1a_hash : ℕ → ℕ → ℕ
fnv1a_hash base id =
    let h = fnv1a_rounds 4 0 base 0x4571cbe2 in bit_and (u32 (bit_xor h id * 0x857c4b2)) 0xffff

unfoldable pub handle_mov : Machine → Operand → Operand → Run Machine
handle_mov m op1 op2 = do x ← get_operand_data m 0x37 op2; write_back m op1 op1.v op1.v x 0xd9

-- What LEA reads at the address: `op2_v_real` is tested for not being null, and the size that is
-- compared with `short` has been set to `int`.
unfoldable pub lea_value : Machine → ℕ → ℕ → Run ℕ
lea_value m v_real a =
    if not (v_real == 0)
    then vmem_at m a
    else if v_int == v_short
    then vmem_short m a
    else vmem_int m a

unfoldable pub handle_lea : Machine → Operand → Operand → Run Machine
handle_lea m op1 op2 = do
  a ← get_operand_data m 0x1d (record op2 { v = v_int })
  x ← lea_value m op2.v a
  if op1.t == op_reg
      then write_reg m op1 op1.v x
      else if op1.t == op_mem
      then (do offs ← calculate_memory_offset m op1; write_to_vmem m offs x op1.v 0x9a)
      else ok m

-- The loop kept from the previous call stack, with the rounds that are left: it goes by three bytes
-- to the first that are all 0, and gives their address. It starts at WEEPER_VMEM_STACK_LO - 3.
unfoldable pub legacy_scan : ℕ → Machine → ℕ → Run ℕ
legacy_scan zero m offs = undefined
legacy_scan (suc left) m offs = do
  let offs' = offs + 3
  b0 ← vmem_at m offs'
  b1 ← vmem_at m (offs' + 1)
  b2 ← vmem_at m (offs' + 2)
  let word = bit_or (bit_or (b0 <<< 16) (b1 <<< 8)) b2
  let rest = legacy_scan left m offs'
  if not (word == 0) && ltb offs' vmem_stack_hi then rest else ok offs'

-- The most rounds that the region has room for.
abbrev pub legacy_rounds : ℕ
legacy_rounds = 21846

unfoldable pub legacy_top : Machine → Run ℕ
legacy_top m = legacy_scan legacy_rounds m (vmem_stack_lo - 3)

-- Where the local variable `id` of the current call lies.
unfoldable pub local_offset : Machine → ℕ → Run ℕ
local_offset m id = do
  key ← stack_peek m.call_stack
  let base = if key == minus_one then 0 else key
  ok (fnv1a_hash base id + vmem_local_lo)

unfoldable pub handle_put : Machine → Operand → Operand → Run Machine
handle_put m op1 op2 = do
  id ← get_operand_data m 0x9a op1
  _ ← legacy_top m
  a ← local_offset m id
  x ← get_operand_data m 0x20 op2
  write_to_vmem m a x op2.v 0x89

unfoldable pub handle_get : Machine → Operand → Operand → Run Machine
handle_get m op1 op2 = do
  id ← get_operand_data m 0x9a op2
  _ ← legacy_top m
  a ← local_offset m id
  x ← vmem_value m op2.v a
  write_back m op1 op1.v op1.v x 0x9a
