-- ===== src/Invariant/Frame.antt =====
-- What each instruction may change.
pub mod Writes
pub mod Handlers
pub mod Calls
pub mod Step
use weeper_vm.Base.{ℕ, ◌≡◌, refl, ◌∙◌, Bool, true, false, ◌==◌, Run, Ensures}
use weeper_vm.Machine.{Machine}
use weeper_vm.Operand.{Operand, op_reg, op_mem}
use weeper_vm.Emulate.Select.{
  Opcode, woc_mov, woc_lea, woc_put, woc_get, woc_add, woc_sub, woc_mul, woc_div, woc_mod, woc_cmp,
  woc_jmp, woc_call, woc_ret, woc_exit, woc_and, woc_or, woc_xor, woc_shl, woc_shr, woc_not,
  woc_syscall, woc_swap, woc_rev, woc_packhi, woc_packlo, woc_rol, woc_ror, woc_fork,
}

-- The parts of the state.
pub data Part : Type 0 where
  code registers memory calls flags threads : Part

-- A part is the same in two states.
abbrev pub Same : Part → Machine → Machine → Type 0
Same code m m' = m'.vcode ≡ m.vcode
Same registers m m' = m'.vregs ≡ m.vregs
Same memory m m' = m'.vmem ≡ m.vmem
Same calls m m' = m'.call_stack ≡ m.call_stack
Same flags m m' = m'.vflag ≡ m.vflag
Same threads m m' = m'.forks ≡ m.forks

-- An instruction that computes a value for its first operand.
abbrev pub to_operand : Operand → Part → Bool
to_operand op code = false
to_operand op registers = op.t == op_reg
to_operand op memory = op.t == op_mem
to_operand op calls = false
to_operand op flags = false
to_operand op threads = false

abbrev pub only : Part → Part → Bool
only code code = true
only registers registers = true
only memory memory = true
only calls calls = true
only flags flags = true
only threads threads = true
only p q = false

-- CALL and RET write in the region of the previous call stack.
abbrev pub to_calls : Part → Bool
to_calls code = false
to_calls registers = false
to_calls memory = true
to_calls calls = true
to_calls flags = false
to_calls threads = false

-- A system call may write to memory, and its result goes to a register.
abbrev pub to_kernel : Part → Bool
to_kernel code = false
to_kernel registers = true
to_kernel memory = true
to_kernel calls = false
to_kernel flags = false
to_kernel threads = false

abbrev pub nothing : Part → Bool
nothing p = false

-- The parts that an instruction with this first operand may change.
abbrev pub writes : Opcode → Operand → Part → Bool
writes woc_put op = only memory
writes woc_cmp op = only flags
writes woc_jmp op = nothing
writes woc_call op = to_calls
writes woc_ret op = to_calls
writes woc_exit op = nothing
writes woc_syscall op = to_kernel
writes woc_fork op = only threads
writes o op = to_operand op

-- What is not in `w` is as in `m`.
abbrev pub Frame : (Part → Bool) → Machine → Machine → Type 0
Frame w m m' = (p : Part) → w p ≡ false → Same p m m'

abbrev pub Keeps : (Part → Bool) → Machine → Run Machine → Type 0
Keeps w m = Ensures (Frame w m)
