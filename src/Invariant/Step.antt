-- ===== src/Invariant/Step.antt =====
-- The invariant over one round of `emulate`, and over a whole run.
use weeper_vm.Base.{
  ℕ, ◌≡◌, refl, arith, Run, ok, Ensures, returns, exits, stuck, bind, anyhow, not, ◌==◌, u32, [],
  inl, ensured, All,
}
use weeper_vm.Stack.{Stack}
use weeper_vm.Stack.Init.{stack_init-Holds}
use weeper_vm.Machine.{Bytes, Machine}
use weeper_vm.Operand.{Operand, get_operand_data}
use weeper_vm.Handler.Control.{handle_jmp, condition, next_address}
use weeper_vm.Handler.Sys.{Request, Kernel, mapped_stack, make_request, handle_syscall, handle_fork}
use weeper_vm.Handler.Sys.Clone.{fork_args}
use weeper_vm.Emulate.{no_jump, call_handler, dispatch, emulate_step, fresh_context}
use weeper_vm.Emulate.Select.{
  Opcode, woc_mov, woc_lea, woc_put, woc_get, woc_add, woc_sub, woc_mul, woc_div, woc_mod, woc_cmp,
  woc_jmp, woc_call, woc_ret, woc_exit, woc_and, woc_or, woc_xor, woc_shl, woc_shr, woc_not,
  woc_syscall, woc_swap, woc_rev, woc_packhi, woc_packlo, woc_rol, woc_ror, woc_fork,
  select_handler,
}
use weeper_vm.Emulate.Decode.{fetch, decode}
use weeper_vm.Invariant.Defs.{IsByte, IsWf, branch}
use weeper_vm.Invariant.Read.{vreg_at-IsWord}
use weeper_vm.Invariant.Write.{vreg_set-IsWf}
use weeper_vm.Invariant.Move.{mov-IsWf, lea-IsWf, put-IsWf, get-IsWf}
use weeper_vm.Invariant.Arith.{
  add-IsWf, sub-IsWf, mul-IsWf, div-IsWf, mod-IsWf, and-IsWf, or-IsWf, xor-IsWf, shl-IsWf, shr-IsWf,
  not-IsWf,
}
use weeper_vm.Invariant.Control.{cmp-IsWf, call-IsWf, ret-IsWf, exit-IsWf}
use weeper_vm.Invariant.Special.{swap-IsWf, rev-IsWf, packhi-IsWf, packlo-IsWf, rol-IsWf, ror-IsWf}

-- The kernel leaves bytes in memory.
abbrev pub KeepsBytes : Kernel → Type 0
KeepsBytes k =
    (r : Request) (mem : Bytes)
    → ((a : ℕ) → IsByte (mem a))
    → Ensures (λ (_, mem'). (a : ℕ) → IsByte (mem' a)) (k.call r mem)

abbrev Keeps : Run (ℕ × Machine) → Type 0
Keeps = Ensures (λ (_, m'). IsWf m')

no_jump-Keeps : {r : Run Machine} → Ensures IsWf r → Keeps (no_jump r)
no_jump-Keeps h = bind h λ m wf. returns wf

module _ (k : Kernel) (kb : KeepsBytes k) {m : Machine} (wf : IsWf m) where
  syscall-IsWf : (op1 op2 : Operand) → Ensures IsWf (handle_syscall k m op1 op2)
  unfolding handle_syscall
  syscall-IsWf op1 op2 = bind (anyhow (get_operand_data m 0x3b op1)) λ code _.
      bind (vreg_at-IsWord wf 10) λ f0 _. bind (vreg_at-IsWord wf 11) λ f1 _.
        bind (vreg_at-IsWord wf 12) λ f2 _. bind (vreg_at-IsWord wf 13) λ f3 _.
          bind (kb (make_request k.vmem_base f0 f1 f2 f3 code) m.vmem wf.mem_bytes)
            λ a h. vreg_set-IsWf (with_memory a.1 h) 4 (u32 a.0) (omega arith)
    where
      with_memory : (b : Bytes) → ((a : ℕ) → IsByte (b a)) → IsWf (record m { vmem = b })
      with_memory b h = record {
        code_bytes = wf.code_bytes;
        mem_bytes = h;
        reg_words = wf.reg_words;
        flag = wf.flag;
        calls = wf.calls;
      }

  fork-IsWf : (op1 op2 : Operand) → Ensures IsWf (handle_fork k m op1 op2)
  unfolding handle_fork
  fork-IsWf op1 op2 = bind (anyhow (condition m 0x06 op2)) λ taken _.
      branch (not taken) (returns wf) (
        bind (anyhow (mapped_stack (k.map_stack m.vmem))) λ stack _.
          bind (anyhow (get_operand_data m 0xf0 op1)) λ dst _.
            branch (not (k.has_thread (fork_args stack) m.vmem)) exits (
              branch (not (k.is_private (fork_args stack).stack (fork_args stack).stack_size)) stuck
                (returns (record {
                  code_bytes = wf.code_bytes;
                  mem_bytes = wf.mem_bytes;
                  reg_words = wf.reg_words;
                  flag = wf.flag;
                  calls = wf.calls;
                }))))

  call_handler-Keeps : (vip : ℕ) (o : Opcode) (a b : Operand) → Keeps (call_handler k m vip o a b)
  unfolding call_handler
  call_handler-Keeps vip woc_mov a b = no_jump-Keeps (mov-IsWf wf a b)
  call_handler-Keeps vip woc_lea a b = no_jump-Keeps (lea-IsWf wf a b)
  call_handler-Keeps vip woc_put a b = no_jump-Keeps (put-IsWf wf a b)
  call_handler-Keeps vip woc_get a b = no_jump-Keeps (get-IsWf wf a b)
  call_handler-Keeps vip woc_add a b = no_jump-Keeps (add-IsWf wf a b)
  call_handler-Keeps vip woc_sub a b = no_jump-Keeps (sub-IsWf wf a b)
  call_handler-Keeps vip woc_mul a b = no_jump-Keeps (mul-IsWf wf a b)
  call_handler-Keeps vip woc_div a b = no_jump-Keeps (div-IsWf wf a b)
  call_handler-Keeps vip woc_mod a b = no_jump-Keeps (mod-IsWf wf a b)
  call_handler-Keeps vip woc_cmp a b = no_jump-Keeps (cmp-IsWf wf a b)
  call_handler-Keeps vip woc_jmp a b = bind (anyhow (handle_jmp m a b)) λ j _. returns wf
  call_handler-Keeps vip woc_call a b = call-IsWf wf vip a b
  call_handler-Keeps vip woc_ret a b = ret-IsWf wf a b
  call_handler-Keeps vip woc_exit a b = no_jump-Keeps (exit-IsWf wf a b)
  call_handler-Keeps vip woc_and a b = no_jump-Keeps (and-IsWf wf a b)
  call_handler-Keeps vip woc_or a b = no_jump-Keeps (or-IsWf wf a b)
  call_handler-Keeps vip woc_xor a b = no_jump-Keeps (xor-IsWf wf a b)
  call_handler-Keeps vip woc_shl a b = no_jump-Keeps (shl-IsWf wf a b)
  call_handler-Keeps vip woc_shr a b = no_jump-Keeps (shr-IsWf wf a b)
  call_handler-Keeps vip woc_not a b = no_jump-Keeps (not-IsWf wf a b)
  call_handler-Keeps vip woc_syscall a b = no_jump-Keeps (syscall-IsWf a b)
  call_handler-Keeps vip woc_swap a b = no_jump-Keeps (swap-IsWf wf a b)
  call_handler-Keeps vip woc_rev a b = no_jump-Keeps (rev-IsWf wf a b)
  call_handler-Keeps vip woc_packhi a b = no_jump-Keeps (packhi-IsWf wf a b)
  call_handler-Keeps vip woc_packlo a b = no_jump-Keeps (packlo-IsWf wf a b)
  call_handler-Keeps vip woc_rol a b = no_jump-Keeps (rol-IsWf wf a b)
  call_handler-Keeps vip woc_ror a b = no_jump-Keeps (ror-IsWf wf a b)
  call_handler-Keeps vip woc_fork a b = no_jump-Keeps (fork-IsWf a b)

  dispatch-Keeps : (vip opcode : ℕ) (a b : Operand) → Keeps (dispatch k m vip opcode a b)
  unfolding dispatch
  dispatch-Keeps vip opcode a b = bind (call_handler-Keeps vip (select_handler opcode) a b) λ r h.
      branch (r.0 == 0) (bind (anyhow (next_address r.1 vip a b)) λ after _. returns h) (returns h)

  -- With a kernel that keeps bytes in memory, one round of `emulate` that returns leaves a
  -- well-formed state: code and memory of bytes, registers of 32 bits, the flags none or one of
  -- EQ, LT and GT, and a call stack that holds return addresses of 24 bits.
  pub emulate_step-IsWf : (vip : ℕ) → Ensures (λ (_, m'). IsWf m') (emulate_step k m vip)
  unfolding emulate_step
  emulate_step-IsWf vip =
      bind (anyhow (fetch m vip)) λ hdr _.
        dispatch-Keeps vip (decode vip hdr).opcode (decode vip hdr).op1 (decode vip hdr).op2

-- The states of a run: from the address and the machine `s` by rounds of `emulate`, each with a
-- kernel that may be another one, of those that `Behaves` allows.
pub data Reach (Behaves : Kernel → Type 0) (s : ℕ × Machine) : ℕ × Machine → Type 0 where
  here : Reach Behaves s s
  round :
      {t u : ℕ × Machine} (k : Kernel)
      → Reach Behaves s t
      → Behaves k
      → emulate_step k t.1 t.0 ≡ ok u
      → Reach Behaves s u

Reach-IsWf :
    {Behaves : Kernel → Type 0}
    → ((k : Kernel) → Behaves k → KeepsBytes k)
    → {s t : ℕ × Machine} → IsWf s.1
    → Reach Behaves s t
    → IsWf t.1
Reach-IsWf kb wf here = wf
Reach-IsWf kb wf (round {t} k r b e) =
    ensured (emulate_step-IsWf k (kb k b) (Reach-IsWf kb wf r) t.0) e

pub fresh_context-IsWf :
    (m : Machine) (blank : Stack)
    → All IsByte m.vcode
    → ((a : ℕ) → IsByte (m.vmem a))
    → IsWf (fresh_context m blank)
fresh_context-IsWf m blank hc hm = record {
  code_bytes = hc;
  mem_bytes = hm;
  reg_words = λ r. omega arith;
  flag = inl refl;
  calls = ([], stack_init-Holds blank, tt);
}

-- `emulate` on any code and memory of bytes, from any address, only ever reaches well-formed states:
-- code and memory of bytes, registers of 32 bits, the flags none or one of EQ, LT and GT (ERR is
-- never set), and a call stack whose links are sound and that holds return addresses of 24 bits. The
-- system may answer every round in another way, as long as all that it does keeps bytes in memory.
pub emulate-IsWf :
    (Behaves : Kernel → Type 0)
    → ((k : Kernel) → Behaves k → KeepsBytes k)
    → (m : Machine) (blank : Stack) (vip : ℕ) → All IsByte m.vcode
    → ((a : ℕ) → IsByte (m.vmem a))
    → (t : ℕ × Machine) → Reach Behaves (vip, fresh_context m blank) t
    → IsWf t.1
emulate-IsWf Behaves kb m blank vip hc hm t r = Reach-IsWf kb (fresh_context-IsWf m blank hc hm) r
