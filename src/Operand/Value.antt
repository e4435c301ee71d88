-- ===== src/Operand/Value.antt =====
-- The value that a handler reads from memory.
use weeper_vm.Base.{ℕ, zero, suc, ◌+◌, ◌≤◌, ◌<◌, ◌≡◌, arith, ok}
use weeper_vm.Machine.{Machine, vmem_size}
use weeper_vm.Memory.Store.{size_of, get_bytes}
use weeper_vm.Memory.Read.{vmem_at-get_bytes, vmem_short-get_bytes, vmem_int-get_bytes}
use weeper_vm.Operand.{vmem_value}
use weeper_vm.Handler.Arith.Reg.{IsSize}

pub vmem_value-get_bytes :
    (m : Machine)
    → ((a : ℕ) → m.vmem a < 256)
    → (v a : ℕ) → IsSize v
    → a + 4 ≤ vmem_size
    → vmem_value m v a ≡ ok (get_bytes (size_of v) m.vmem a)
unfolding vmem_value
vmem_value-get_bytes m bytes zero a h r = absurd (omega arith)
vmem_value-get_bytes m bytes (suc zero) a h r = vmem_at-get_bytes m bytes a (omega arith)
vmem_value-get_bytes m bytes (suc (suc zero)) a h r = vmem_short-get_bytes m bytes a (omega arith)
vmem_value-get_bytes m bytes (suc (suc (suc zero))) a h r =
    vmem_int-get_bytes m bytes a (omega arith)
vmem_value-get_bytes m bytes (suc (suc (suc (suc v)))) a h r = absurd (omega arith)
