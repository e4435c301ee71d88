-- ===== src/Emulate/Jump.antt =====
-- Where `dispatch` goes on after a conditional jump.
use weeper_vm.Base.{
  ℕ, ◌+◌, ◌-◌, ◌%◌, ◌^◌, ◌<◌, ◌≡◌, ◌≢◌, arith, ok, ◌>>=◌, ◌∙◌, ap, bit_and, not, ◌==◌,
  if◌then◌else◌, Bool-cases, inl, inr,
}
use weeper_vm.Machine.{Machine}
use weeper_vm.Operand.{Operand, op_none, get_operand_data}
use weeper_vm.Handler.Control.{handle_cmp, handle_jmp, next_address}
use weeper_vm.Handler.Control.Flags.{
  Relation, flag_of, relates, order_flag, handle_cmp-relates, handle_jmp-condition,
}
use weeper_vm.Handler.Sys.{Kernel}
use weeper_vm.Invariant.{IsWf}
use weeper_vm.Emulate.{call_handler, dispatch}
use weeper_vm.Emulate.Select.{select_handler}

module _ (k : Kernel) (m : Machine) (vip : ℕ) (op1 op2 : Operand) where
  dispatch-jmp :
      (j : ℕ)
      → handle_jmp m op1 op2 ≡ ok j
      → dispatch k m vip 10 op1 op2
        ≡ (if j == 0 then (next_address m vip op1 op2 >>= λ a. ok (a, m)) else ok (j - 1, m))
  unfolding dispatch call_handler select_handler
  dispatch-jmp j e = rw e

  jmp-goes :
      (dst c : ℕ)
      → dst < 2 ^ 32 - 1
      → op2.t ≢ op_none
      → get_operand_data m 0xb3 op1 ≡ ok dst
      → get_operand_data m 0x00 op2 ≡ ok c
      → dispatch k m vip 10 op1 op2 ≡ (
          if not (bit_and c m.vflag == 0)
          then ok (dst, m)
          else (next_address m vip op1 op2 >>= λ a. ok (a, m)))
  jmp-goes dst c h ne ed ec = elim (Bool-cases (not (bit_and c m.vflag == 0))) [
    | inl e ↦ rw e (dispatch-jmp (dst + 1) (jumps ∙ rw e (ap ok (omega arith))) ∙ ground arith)
    | inr e ↦ rw e (dispatch-jmp 0 (jumps ∙ rw e))
  ]
    where
      jumps :
          handle_jmp m op1 op2 ≡ ok (if not (bit_and c m.vflag == 0) then (dst + 1) % 2 ^ 32 else 0)
      jumps = handle_jmp-condition m op1 op2 dst c ne ed ec

-- CMP followed by a conditional JMP: from a well-formed state CMP returns, and if the operands of a
-- JMP in the state that it leaves are a destination `dst` below 2 ^ 32 - 1 and the flags of the
-- relation `c`, then the JMP goes to `dst` exactly if `c` holds of what was compared, and otherwise
-- to the instruction behind it, with the state unchanged.
pub dispatch-jmp-cmp :
    (k : Kernel) (m : Machine) (a b : Operand) (x y vip : ℕ) (op1 op2 : Operand) (dst : ℕ)
    (c : Relation)
    → IsWf m
    → get_operand_data m 0x10 a ≡ ok x
    → get_operand_data m 0x20 b ≡ ok y
    → dst < 2 ^ 32 - 1
    → op2.t ≢ op_none
    → get_operand_data (record m { vflag = order_flag x y }) 0xb3 op1 ≡ ok dst
    → get_operand_data (record m { vflag = order_flag x y }) 0x00 op2 ≡ ok (flag_of c)
    → (let m' : Machine = record m { vflag = order_flag x y } in
        (handle_cmp m a b ≡ ok m')
        × (dispatch k m' vip 10 op1 op2 ≡ (
            if relates c x y
            then ok (dst, m')
            else (next_address m' vip op1 op2 >>= λ after. ok (after, m')))))
dispatch-jmp-cmp k m a b x y vip op1 op2 dst c wf ex ey h ne ed ec =
    let m' : Machine = record m { vflag = order_flag x y } in
    let (sets, meets) = handle_cmp-relates m a b x y wf ex ey in
    (sets, rw (← meets c) (jmp-goes k m' vip op1 op2 dst (flag_of c) h ne ed ec))
