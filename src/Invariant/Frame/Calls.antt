-- ===== src/Invariant/Frame/Calls.antt =====
-- CMP, CALL, RET, SYSCALL and FORK, and what they leave alone.
use weeper_vm.Base.{
  ℕ, ◌+◌, ◌-◌, ◌∷◌, refl, Bool, ok, Ensures, returns, exits, stuck, bind, anyhow, ◌>>=◌, ◌==◌, not,
  leb, u32, if◌then◌else◌,
}
use weeper_vm.Stack.{Stack, stack_push, stack_pop}
use weeper_vm.Machine.{Machine, vmem_stack_lo, vmem_stack_hi, vreg_at, vmem_set}
use weeper_vm.Operand.{Operand, op_none, get_operand_data}
use weeper_vm.Handler.Move.{legacy_top}
use weeper_vm.Handler.Control.{
  handle_cmp, condition, next_address, legacy_push, handle_call, legacy_clear, handle_ret,
  handle_exit,
}
use weeper_vm.Handler.Sys.{Kernel, mapped_stack, make_request, handle_syscall, handle_fork}
use weeper_vm.Handler.Sys.Clone.{fork_args}
use weeper_vm.Invariant.{branch}
use weeper_vm.Invariant.Frame.{
  Part, code, registers, memory, calls, flags, threads, to_calls, to_kernel, only, Frame, Keeps,
}
use weeper_vm.Invariant.Frame.Writes.{unchanged, with_memory, vmem_set-Frame, vreg_set-Frame}

with_calls :
    {s m : Machine}
    → Frame to_calls s m
    → (c : Stack) → Frame to_calls s (record m { call_stack = c })
with_calls f c code h = f code h
with_calls f c registers h = f registers h
with_calls f c memory h = f memory h
with_calls f c calls h = cc
with_calls f c flags h = f flags h
with_calls f c threads h = f threads h

three_writes :
    {s m : Machine}
    → Frame to_calls s m
    → (a x y z : ℕ)
    → Keeps to_calls s
        (vmem_set m a x >>= λ m1. vmem_set m1 (a + 1) y >>= λ m2. vmem_set m2 (a + 2) z)
three_writes f a x y z =
    bind (vmem_set-Frame refl f a x)
      λ m1 f1. bind (vmem_set-Frame refl f1 (a + 1) y) λ m2 f2. vmem_set-Frame refl f2 (a + 2) z

legacy_push-Frame : (m : Machine) (x : ℕ) → Keeps to_calls m (legacy_push m x)
unfolding legacy_push
legacy_push-Frame m x =
    bind (anyhow (legacy_top m)) λ offs _.
      branch (leb (vmem_stack_hi - 2) offs) exits (three_writes (unchanged m _) offs _ _ _)

legacy_clear-Frame :
    {s m : Machine} → Frame to_calls s m → (a : ℕ) → Keeps to_calls s (legacy_clear m a)
unfolding legacy_clear
legacy_clear-Frame f a = branch (leb vmem_stack_lo a) (three_writes f a 0 0 0) (returns f)

module _ (m : Machine) (op1 op2 : Operand) where
  pub call-Frame : (vip : ℕ) → Ensures (λ (_, m'). Frame to_calls m m') (handle_call m vip op1 op2)
  unfolding handle_call
  call-Frame vip = bind (anyhow (get_operand_data m 0x56 op1)) λ dst _.
      bind (anyhow (condition m 0x70 op2)) λ taken _. branch (not taken) (returns (unchanged m _)) (
        bind (anyhow (next_address m vip op1 op2)) λ returnto _.
          bind (legacy_push-Frame m returnto) λ m1 f1.
            bind (anyhow (stack_push m1.call_stack returnto)) λ a _. returns (with_calls f1 a.1))

  pub ret-Frame : Ensures (λ (_, m'). Frame to_calls m m') (handle_ret m op1 op2)
  unfolding handle_ret
  ret-Frame = bind (anyhow (legacy_top m)) λ offs _. bind (anyhow (condition m 0x66 op1)) λ taken _.
      branch (not taken) (returns (unchanged m _)) (
        bind (anyhow (stack_pop m.call_stack)) λ a _.
          bind (legacy_clear-Frame (with_calls (unchanged m _) a.1) (offs - 3)) λ m1 f1. returns f1)

  with_flags : (f : ℕ) → Frame (only flags) m (record m { vflag = f })
  with_flags f code h = refl
  with_flags f registers h = refl
  with_flags f memory h = refl
  with_flags f calls h = refl
  with_flags f flags h = cc
  with_flags f threads h = refl

  pub cmp-Frame : Keeps (only flags) m (handle_cmp m op1 op2)
  unfolding handle_cmp
  cmp-Frame =
      bind (anyhow (get_operand_data m 0x10 op1))
        λ x _. bind (anyhow (get_operand_data m 0x20 op2)) λ y _. returns (with_flags _)

  pub exit-Frame : {w : Part → Bool} → Keeps w m (handle_exit m op1 op2)
  unfolding handle_exit
  exit-Frame =
      bind (anyhow (if op1.t == op_none then ok 0 else get_operand_data m 0x8d op1)) λ code _. exits

  module _ (k : Kernel) where
    pub syscall-Frame : Keeps to_kernel m (handle_syscall k m op1 op2)
    unfolding handle_syscall
    syscall-Frame = bind (anyhow (get_operand_data m 0x3b op1)) λ code _.
        bind (anyhow (vreg_at m 10)) λ f0 _. bind (anyhow (vreg_at m 11)) λ f1 _.
          bind (anyhow (vreg_at m 12)) λ f2 _. bind (anyhow (vreg_at m 13)) λ f3 _.
            bind (anyhow (k.call (make_request k.vmem_base f0 f1 f2 f3 code) m.vmem)) λ a _.
              vreg_set-Frame (record m { vmem = a.1 }) (with_memory (unchanged m _) a.1 refl) refl 4
                (u32 a.0)

    forked : (dst : ℕ) → Frame (only threads) m (record m { forks = dst ∷ m.forks })
    forked dst code h = refl
    forked dst registers h = refl
    forked dst memory h = refl
    forked dst calls h = refl
    forked dst flags h = refl
    forked dst threads h = cc

    pub fork-Frame : Keeps (only threads) m (handle_fork k m op1 op2)
    unfolding handle_fork
    fork-Frame = bind (anyhow (condition m 0x06 op2)) λ taken _.
        branch (not taken) (returns (unchanged m _)) (
          bind (anyhow (mapped_stack (k.map_stack m.vmem))) λ stack _.
            bind (anyhow (get_operand_data m 0xf0 op1)) λ dst _.
              branch (not (k.has_thread (fork_args stack) m.vmem)) exits (
                branch (not (k.is_private (fork_args stack).stack (fork_args stack).stack_size))
                  stuck (returns (forked dst))))
