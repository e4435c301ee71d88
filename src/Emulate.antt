-- ===== src/Emulate.antt =====
-- VM/src/emulate.c: `dispatch` and `emulate`, over the decoder and the handlers.
pub mod Select
pub mod Decode
pub mod Jump
pub mod Calls
use weeper_vm.Base.{
  ℕ, zero, suc, ◌-◌, ◌*◌, ◌^◌, List, [], Option, none, some, Run, ok, ◌>>=◌, sub32, ◌==◌,
  if◌then◌else◌, u32, ◌+◌,
}
use weeper_vm.Stack.{Stack, stack_init}
use weeper_vm.Machine.{Machine}
use weeper_vm.Operand.{Operand}
use weeper_vm.Handler.Move.{handle_mov, handle_lea, handle_put, handle_get}
use weeper_vm.Handler.Arith.{
  handle_add, handle_sub, handle_mul, handle_div, handle_mod, handle_and, handle_or, handle_xor,
  handle_shl, handle_shr, handle_not,
}
use weeper_vm.Handler.Control.{
  handle_cmp, handle_jmp, handle_call, handle_ret, handle_exit, next_address,
}
use weeper_vm.Handler.Special.{
  handle_swap, handle_rev, handle_packhi, handle_packlo, handle_rol, handle_ror,
}
use weeper_vm.Handler.Sys.{Kernel, handle_syscall, handle_fork}
use Select.{
  Opcode, woc_mov, woc_lea, woc_put, woc_get, woc_add, woc_sub, woc_mul, woc_div, woc_mod, woc_cmp,
  woc_jmp, woc_call, woc_ret, woc_exit, woc_and, woc_or, woc_xor, woc_shl, woc_shr, woc_not,
  woc_syscall, woc_swap, woc_rev, woc_packhi, woc_packlo, woc_rol, woc_ror, woc_fork,
  select_handler,
}
use Decode.{Decoded, fetch, decode}

-- The registers, the flags and the call stack that `emulate` sets up. `blank` is the array of the
-- stack before `stack_init`.
abbrev pub fresh_context : Machine → Stack → Machine
fresh_context m blank = record m { vregs = λ r. 0; call_stack = stack_init blank; vflag = 0 }

-- A handler whose return value is not looked at.
abbrev pub no_jump : Run Machine → Run (ℕ × Machine)
no_jump r = r >>= λ m. ok (0, m)

module _ (k : Kernel) where
  -- The call that the tree of `dispatch` ends in, with `jmpDst`.
  unfoldable pub call_handler : Machine → ℕ → Opcode → Operand → Operand → Run (ℕ × Machine)
  call_handler m vip woc_mov a b = no_jump (handle_mov m a b)
  call_handler m vip woc_lea a b = no_jump (handle_lea m a b)
  call_handler m vip woc_put a b = no_jump (handle_put m a b)
  call_handler m vip woc_get a b = no_jump (handle_get m a b)
  call_handler m vip woc_add a b = no_jump (handle_add m a b)
  call_handler m vip woc_sub a b = no_jump (handle_sub m a b)
  call_handler m vip woc_mul a b = no_jump (handle_mul m a b)
  call_handler m vip woc_div a b = no_jump (handle_div m a b)
  call_handler m vip woc_mod a b = no_jump (handle_mod m a b)
  call_handler m vip woc_cmp a b = no_jump (handle_cmp m a b)
  call_handler m vip woc_jmp a b = do jmp_dst ← handle_jmp m a b; ok (jmp_dst, m)
  call_handler m vip woc_call a b = handle_call m vip a b
  call_handler m vip woc_ret a b = handle_ret m a b
  call_handler m vip woc_exit a b = no_jump (handle_exit m a b)
  call_handler m vip woc_and a b = no_jump (handle_and m a b)
  call_handler m vip woc_or a b = no_jump (handle_or m a b)
  call_handler m vip woc_xor a b = no_jump (handle_xor m a b)
  call_handler m vip woc_shl a b = no_jump (handle_shl m a b)
  call_handler m vip woc_shr a b = no_jump (handle_shr m a b)
  call_handler m vip woc_not a b = no_jump (handle_not m a b)
  call_handler m vip woc_syscall a b = no_jump (handle_syscall k m a b)
  call_handler m vip woc_swap a b = no_jump (handle_swap m a b)
  call_handler m vip woc_rev a b = no_jump (handle_rev m a b)
  call_handler m vip woc_packhi a b = no_jump (handle_packhi m a b)
  call_handler m vip woc_packlo a b = no_jump (handle_packlo m a b)
  call_handler m vip woc_rol a b = no_jump (handle_rol m a b)
  call_handler m vip woc_ror a b = no_jump (handle_ror m a b)
  call_handler m vip woc_fork a b = no_jump (handle_fork k m a b)

  -- The address of the next instruction, and the machine. `jmpDst` is an int, and one is taken from
  -- it as gcc compiles it: 0x80000000 becomes 0x7fffffff.
  unfoldable pub dispatch : Machine → ℕ → ℕ → Operand → Operand → Run (ℕ × Machine)
  dispatch m vip opcode op1 op2 = do
    (jmp_dst, m') ← call_handler m vip (select_handler opcode) op1 op2
    if jmp_dst == 0
        then (do after ← next_address m' vip op1 op2; ok (after, m'))
        else ok (jmp_dst - 1, m')

  -- One round of the loop of `emulate`.
  unfoldable pub emulate_step : Machine → ℕ → Run (ℕ × Machine)
  emulate_step m vip = do
    hdr ← fetch m vip
    let d = decode vip hdr
    dispatch m vip d.opcode d.op1 d.op2

-- The loop, for at most `rounds` rounds, each with the kernel that it meets: `none` if it has not
-- ended by then.
unfoldable pub emulate_loop : (ℕ → Kernel) → ℕ → Machine → ℕ → Run (Option Machine)
emulate_loop ks zero m vip = ok none
emulate_loop ks (suc rounds) m vip = do
  (vip', m') ← emulate_step (ks 0) m vip
  let rest = emulate_loop (λ i. ks (suc i)) rounds m' vip'
  if vip' == 0xffffff then ok (some m') else rest

-- `emulate`, from a state fresh but for code and memory.
unfoldable pub emulate : (ℕ → Kernel) → ℕ → Machine → Stack → ℕ → Run (Option Machine)
emulate ks rounds m blank vip = emulate_loop ks rounds (fresh_context m blank) vip
