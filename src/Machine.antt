-- ===== src/Machine.antt =====
-- The virtual machine's state: the globals `vcode` and `vmem` of VM/WeeperVM.c, and the
-- `WeeperContext` of VM/lib/emulate.h. Every access checks its range, as C does not: one outside
-- is `undefined`.
use weeper_vm.Base.{ℕ, ◌+◌, List, Run, ok, undefined, lift, ltb, ◌==◌, if◌then◌else◌, get_elem?}
use weeper_vm.Stack.{Stack}

-- WEEPER_VMEM_LOCAL_LO, WEEPER_VMEM_STACK_LO, WEEPER_VMEM_STACK_HI, WEEPER_VMEM_SIZE
abbrev pub vmem_local_lo : ℕ
vmem_local_lo = 0x000000

abbrev pub vmem_stack_lo : ℕ
vmem_stack_lo = 0x010000

abbrev pub vmem_stack_hi : ℕ
vmem_stack_hi = 0x01ffff

abbrev pub vmem_size : ℕ
vmem_size = 0x0fffff + 1

-- VREGS_LEN counts bytes: `sizeof(uint32_t) * 16`.
abbrev pub vregs_count : ℕ
vregs_count = 16

-- WEEPER_ERR_STACK
abbrev pub err_stack : ℕ
err_stack = 0xef32

abbrev pub Bytes : Type 0
Bytes = ℕ → ℕ

-- WeeperRegister: the scratch register that takes the result of a system call, and the parameters.
abbrev pub vreg_r0 : ℕ
vreg_r0 = 4

abbrev pub vreg_f0 : ℕ
vreg_f0 = 10

abbrev pub vreg_f1 : ℕ
vreg_f1 = 11

abbrev pub vreg_f2 : ℕ
vreg_f2 = 12

abbrev pub vreg_f3 : ℕ
vreg_f3 = 13

-- `forks` lists where the threads that the machine has started begin, the last first.
pub record Machine : Type 0 where
  pub vcode : List ℕ
  pub vmem : Bytes
  pub vregs : ℕ → ℕ
  pub call_stack : Stack
  pub vflag : ℕ
  pub forks : List ℕ

-- `a[i] = x`
abbrev pub update : (ℕ → ℕ) → ℕ → ℕ → ℕ → ℕ
update a i x j = if i == j then x else a j

module _ (m : Machine) where
  -- `vcode[a]`
  unfoldable pub vcode_at : ℕ → Run ℕ
  vcode_at a = lift (get_elem? m.vcode a)

  -- `vmem[a]`
  unfoldable pub vmem_at : ℕ → Run ℕ
  vmem_at a = if ltb a vmem_size then ok (m.vmem a) else undefined

  -- `vmem[a] = x`
  unfoldable pub vmem_set : ℕ → ℕ → Run Machine
  vmem_set a x = if ltb a vmem_size then ok (record m { vmem = update m.vmem a x }) else undefined

  -- `ctxt->vregs[r]`
  unfoldable pub vreg_at : ℕ → Run ℕ
  vreg_at r = if ltb r vregs_count then ok (m.vregs r) else undefined

  -- `ctxt->vregs[r] = x`
  unfoldable pub vreg_set : ℕ → ℕ → Run Machine
  vreg_set r x =
      if ltb r vregs_count then ok (record m { vregs = update m.vregs r x }) else undefined
