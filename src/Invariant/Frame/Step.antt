-- ===== src/Invariant/Frame/Step.antt =====
-- One round of `emulate` changes only what its instruction may change.
use weeper_vm.Base.{ℕ, ◌≡◌, refl, Run, Ensures, returns, bind, mono, anyhow, ◌==◌, false}
use weeper_vm.Machine.{Machine}
use weeper_vm.Operand.{Operand}
use weeper_vm.Handler.Control.{handle_jmp, next_address}
use weeper_vm.Handler.Sys.{Kernel}
use weeper_vm.Emulate.{no_jump, call_handler, dispatch, emulate_step}
use weeper_vm.Emulate.Decode.{fetch, decode}
use weeper_vm.Emulate.Select.{
  Opcode, woc_mov, woc_lea, woc_put, woc_get, woc_add, woc_sub, woc_mul, woc_div, woc_mod, woc_cmp,
  woc_jmp, woc_call, woc_ret, woc_exit, woc_and, woc_or, woc_xor, woc_shl, woc_shr, woc_not,
  woc_syscall, woc_swap, woc_rev, woc_packhi, woc_packlo, woc_rol, woc_ror, woc_fork,
  select_handler,
}
use weeper_vm.Invariant.{branch}
use weeper_vm.Invariant.Frame.{code, writes, Frame, Keeps}
use weeper_vm.Invariant.Frame.Writes.{unchanged}
use weeper_vm.Invariant.Frame.Handlers.{
  mov-Frame, lea-Frame, put-Frame, get-Frame, add-Frame, sub-Frame, mul-Frame, div-Frame, mod-Frame,
  and-Frame, or-Frame, xor-Frame, shl-Frame, shr-Frame, not-Frame, swap-Frame, rev-Frame,
  packhi-Frame, packlo-Frame, rol-Frame, ror-Frame,
}
use weeper_vm.Invariant.Frame.Calls.{
  call-Frame, ret-Frame, cmp-Frame, exit-Frame, syscall-Frame, fork-Frame,
}

-- A round that changes only what the instruction may.
abbrev pub Touches : Opcode → Operand → Machine → Run (ℕ × Machine) → Type 0
Touches o op m = Ensures (λ (_, m'). Frame (writes o op) m m')

no_jump-Touches :
    (o : Opcode) (op : Operand) {m : Machine} {r : Run Machine}
    → Keeps (writes o op) m r
    → Touches o op m (no_jump r)
no_jump-Touches o op h = bind h λ m f. returns f

-- No instruction writes to the code.
writes-code : (o : Opcode) (op : Operand) → writes o op code ≡ false
writes-code woc_mov op = refl
writes-code woc_lea op = refl
writes-code woc_put op = refl
writes-code woc_get op = refl
writes-code woc_add op = refl
writes-code woc_sub op = refl
writes-code woc_mul op = refl
writes-code woc_div op = refl
writes-code woc_mod op = refl
writes-code woc_cmp op = refl
writes-code woc_jmp op = refl
writes-code woc_call op = refl
writes-code woc_ret op = refl
writes-code woc_exit op = refl
writes-code woc_and op = refl
writes-code woc_or op = refl
writes-code woc_xor op = refl
writes-code woc_shl op = refl
writes-code woc_shr op = refl
writes-code woc_not op = refl
writes-code woc_syscall op = refl
writes-code woc_swap op = refl
writes-code woc_rev op = refl
writes-code woc_packhi op = refl
writes-code woc_packlo op = refl
writes-code woc_rol op = refl
writes-code woc_ror op = refl
writes-code woc_fork op = refl

module _ (k : Kernel) (m : Machine) (vip : ℕ) where
  call_handler-Touches : (o : Opcode) (a b : Operand) → Touches o a m (call_handler k m vip o a b)
  unfolding call_handler
  call_handler-Touches woc_mov a b = no_jump-Touches woc_mov a (mov-Frame m a b)
  call_handler-Touches woc_lea a b = no_jump-Touches woc_lea a (lea-Frame m a b)
  call_handler-Touches woc_put a b = no_jump-Touches woc_put a (put-Frame m a b)
  call_handler-Touches woc_get a b = no_jump-Touches woc_get a (get-Frame m a b)
  call_handler-Touches woc_add a b = no_jump-Touches woc_add a (add-Frame m a b)
  call_handler-Touches woc_sub a b = no_jump-Touches woc_sub a (sub-Frame m a b)
  call_handler-Touches woc_mul a b = no_jump-Touches woc_mul a (mul-Frame m a b)
  call_handler-Touches woc_div a b = no_jump-Touches woc_div a (div-Frame m a b)
  call_handler-Touches woc_mod a b = no_jump-Touches woc_mod a (mod-Frame m a b)
  call_handler-Touches woc_cmp a b = no_jump-Touches woc_cmp a (cmp-Frame m a b)
  call_handler-Touches woc_jmp a b = bind (anyhow (handle_jmp m a b)) λ j _. returns (unchanged m _)
  call_handler-Touches woc_call a b = call-Frame m a b vip
  call_handler-Touches woc_ret a b = ret-Frame m a b
  call_handler-Touches woc_exit a b = no_jump-Touches woc_exit a (exit-Frame m a b)
  call_handler-Touches woc_and a b = no_jump-Touches woc_and a (and-Frame m a b)
  call_handler-Touches woc_or a b = no_jump-Touches woc_or a (or-Frame m a b)
  call_handler-Touches woc_xor a b = no_jump-Touches woc_xor a (xor-Frame m a b)
  call_handler-Touches woc_shl a b = no_jump-Touches woc_shl a (shl-Frame m a b)
  call_handler-Touches woc_shr a b = no_jump-Touches woc_shr a (shr-Frame m a b)
  call_handler-Touches woc_not a b = no_jump-Touches woc_not a (not-Frame m a b)
  call_handler-Touches woc_syscall a b = no_jump-Touches woc_syscall a (syscall-Frame m a b k)
  call_handler-Touches woc_swap a b = no_jump-Touches woc_swap a (swap-Frame m a b)
  call_handler-Touches woc_rev a b = no_jump-Touches woc_rev a (rev-Frame m a b)
  call_handler-Touches woc_packhi a b = no_jump-Touches woc_packhi a (packhi-Frame m a b)
  call_handler-Touches woc_packlo a b = no_jump-Touches woc_packlo a (packlo-Frame m a b)
  call_handler-Touches woc_rol a b = no_jump-Touches woc_rol a (rol-Frame m a b)
  call_handler-Touches woc_ror a b = no_jump-Touches woc_ror a (ror-Frame m a b)
  call_handler-Touches woc_fork a b = no_jump-Touches woc_fork a (fork-Frame m a b k)

  -- Whatever opcode is dispatched with whatever operands, if it returns: the code is as it was. The
  -- registers have changed only if the instruction writes to its first operand and that is a
  -- register, or is a system call; the memory only if the first operand is in memory, or the instruction is PUT,
  -- CALL, RET or a system call; the flags only by CMP, the call stack only by CALL and RET, and the
  -- threads only by FORK.
  pub dispatch-Frame :
      (opcode : ℕ) (a b : Operand)
      → Touches (select_handler opcode) a m (dispatch k m vip opcode a b)
  unfolding dispatch
  dispatch-Frame opcode a b = bind (call_handler-Touches (select_handler opcode) a b) λ r f.
      branch (r.0 == 0) (bind (anyhow (next_address r.1 vip a b)) λ after _. returns f) (returns f)

  -- The code is never changed.
  pub emulate_step-code : Ensures (λ (_, m'). m'.vcode ≡ m.vcode) (emulate_step k m vip)
  unfolding emulate_step
  emulate_step-code = bind (anyhow (fetch m vip)) λ hdr _.
      mono (dispatch-Frame (decode vip hdr).opcode (decode vip hdr).op1 (decode vip hdr).op2)
        λ a f. f code (writes-code (select_handler (decode vip hdr).opcode) (decode vip hdr).op1)
