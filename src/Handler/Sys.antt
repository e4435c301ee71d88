-- ===== src/Handler/Sys.antt =====
-- SYSCALL and FORK. The kernel is a parameter.
pub mod Numbers
pub mod Clone
use weeper_vm.Base.{
  ℕ, ◌+◌, ◌/◌, ◌%◌, Bool, ◌∷◌, Run, ok, exited, undefined, Option, none, some, ◌>>=◌, u32, not,
  ◌==◌, if◌then◌else◌,
}
use weeper_vm.Machine.{
  Bytes, Machine, vreg_at, vreg_set, vreg_r0, vreg_f0, vreg_f1, vreg_f2, vreg_f3,
}
use weeper_vm.Operand.{Operand, get_operand_data}
use weeper_vm.Handler.Control.{condition}
use Clone.{CloneArgs, fork_args}

-- A system call as it is made: the number and the four arguments.
pub record Request : Type 0 where
  pub code : ℕ
  pub a0 : ℕ
  pub a1 : ℕ
  pub a2 : ℕ
  pub a3 : ℕ

-- What the program sees of the system during one instruction: where `vmem` is mapped, what a system
-- call returns and does to `vmem` (or that it ends the thread), where memory for a fork is mapped if
-- it can be had, whether CLONE3 starts a thread, and whether memory that is given to it as the stack
-- is mapped and used by no one else as long as the child runs. The system has a state that the
-- program does not see, so each round of `emulate` has a kernel of its own, which may answer the same
-- request otherwise.
pub record Kernel : Type 0 where
  pub vmem_base : ℕ
  pub call : Request → Bytes → Run (ℕ × Bytes)
  pub map_stack : Bytes → Option ℕ
  pub has_thread : CloneArgs → Bytes → Bool
  pub is_private : (stack size : ℕ) → Bool

-- `sys_mmap` ends the thread with 9, the number of SYS_mmap, if there is no memory.
unfoldable pub mapped_stack : Option ℕ → Run ℕ
mapped_stack none = exited 9
mapped_stack (some stack) = ok stack

abbrev pub request : ℕ → ℕ → ℕ → ℕ → ℕ → Request
request code a0 a1 a2 a3 = record { code = code; a0 = a0; a1 = a1; a2 = a2; a3 = a3 }

-- The call that the virtual number `code` stands for, with `vmem` at `base` and the registers F0 to
-- F3. A number that is none of the fourteen goes to the kernel as it is.
module _ (base f0 f1 f2 f3 : ℕ) where
  unfoldable pub time_request : ℕ → Request
  time_request code =
      if code % 0x10 == 0
      then request 35 (base + f0) 0x2a 0x95 0x2d
      else if code % 0x10 == 1
      then request 39 0xaf 0xc6 0x85 0xc0
      else if code % 0x10 == 2
      then request 110 0x2e 0x75 0xa9 0x32
      else if code % 0x10 == 3
      then request 62 f0 f1 0x9e 0x8d
      else if code % 0x10 == 4
      then request 96 (base + f0) 0x00 0x4c 0x48
      else request code f0 f1 f2 f3

  unfoldable pub file_request : ℕ → Request
  file_request code =
      if code % 0x10 == 0
      then request 2 (base + f0) f1 0x05 0xef
      else if code % 0x10 == 1
      then request 0 f0 (base + f1) f2 0x76
      else if code % 0x10 == 2
      then request 1 f0 (base + f1) f2 0xa5
      else if code % 0x10 == 3
      then request 3 f0 0x38 0x11 0x2a
      else if code % 0x10 == 4
      then request 8 f0 f1 f2 0xdc
      else request code f0 f1 f2 f3

  unfoldable pub notify_request : ℕ → Request
  notify_request code =
      if code % 0x10 == 0
      then request 253 f0 0xdb 0x76 0xe6
      else if code % 0x10 == 1
      then request 254 f0 (base + f1) f2 0x52
      else if code % 0x10 == 2
      then request 255 f0 f1 0xf2 0x59
      else if code % 0x10 == 3
      then request 202 (base + f0) f1 f2 (base + f3)
      else request code f0 f1 f2 f3

  unfoldable pub make_request : ℕ → Request
  make_request code =
      if code / 0x10 == 1
      then time_request code
      else if code / 0x10 == 2
      then file_request code
      else if code / 0x10 == 3
      then notify_request code
      else request code f0 f1 f2 f3

module _ (k : Kernel) where
  unfoldable pub handle_syscall : Machine → Operand → Operand → Run Machine
  handle_syscall m op1 op2 = do
    code ← get_operand_data m 0x3b op1
    f0 ← vreg_at m vreg_f0
    f1 ← vreg_at m vreg_f1
    f2 ← vreg_at m vreg_f2
    f3 ← vreg_at m vreg_f3
    (ret, mem) ← k.call (make_request k.vmem_base f0 f1 f2 f3 code) m.vmem
    vreg_set (record m { vmem = mem }) vreg_r0 (u32 ret)

  -- The parent's side: SYS_clone3 is 435. The child runs `emulate` at the destination, on the stack
  -- that the arguments of CLONE3 name, which lies above the memory that is mapped: it is undefined
  -- what a child does that shares it.
  unfoldable pub handle_fork : Machine → Operand → Operand → Run Machine
  handle_fork m op1 op2 = do
    taken ← condition m 0x06 op2
    if not taken then ok m else do
      stack ← mapped_stack (k.map_stack m.vmem)
      dst ← get_operand_data m 0xf0 op1
      let ca = fork_args stack
      if not (k.has_thread ca m.vmem)
          then exited 435
          else if not (k.is_private ca.stack ca.stack_size)
          then undefined
          else ok (record m { forks = dst ∷ m.forks })
