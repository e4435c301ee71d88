-- ===== src/Handler/Write.antt =====
-- The two destinations to which a handler writes a value that is ready.
use weeper_vm.Base.{ℕ, bit_and, bit_or, Run, ok, ◌>>=◌, ◌==◌, if◌then◌else◌}
use weeper_vm.Machine.{Machine, vreg_at, vreg_set}
use weeper_vm.Memory.{pre_v_truncation, vmem_expansion, write_to_vmem}
use weeper_vm.Operand.{Operand, op_reg, op_mem, operand_byte, calculate_memory_offset}

-- `case WEEPER_OP_T_REG`: the bits of the register that the size `v` leaves, or-ed with the value.
unfoldable pub write_reg : Machine → Operand → ℕ → ℕ → Run Machine
write_reg m op v x = do
  d0 ← operand_byte m op 0
  let r = bit_and d0 0x0f
  reg ← vreg_at m r
  vreg_set m r (bit_or (pre_v_truncation reg v) x)

-- `case WEEPER_OP_T_MEM`: the value expanded at the size `e`, and written at the size `v`.
unfoldable pub write_mem : Machine → Operand → (e v x trash : ℕ) → Run Machine
write_mem m op e v x trash = do
  a ← calculate_memory_offset m op
  x' ← vmem_expansion m a x e
  write_to_vmem m a x' v trash

-- The `switch(op1->t)` of a handler that computes its value first.
unfoldable pub write_back : Machine → Operand → (e v x trash : ℕ) → Run Machine
write_back m op e v x trash =
    if op.t == op_reg
    then write_reg m op v x
    else if op.t == op_mem
    then write_mem m op e v x trash
    else ok m
