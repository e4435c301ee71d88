-- ===== src/Invariant/Move.antt =====
-- MOV, LEA, PUT and GET keep the invariant.
use weeper_vm.Base.{ℕ, arith, Ensures, returns, bind, mono, anyhow, ◌==◌, not}
use weeper_vm.Machine.{Machine}
use weeper_vm.Memory.{v_short, v_int}
use weeper_vm.Operand.{Operand, op_reg, op_mem, calculate_memory_offset}
use weeper_vm.Handler.Move.{
  handle_mov, lea_value, handle_lea, legacy_top, local_offset, handle_put, handle_get,
}
use weeper_vm.Invariant.Defs.{IsWord, IsWf, branch}
use weeper_vm.Invariant.Read.{
  vmem_at-IsByte, vmem_short-IsWord, vmem_int-IsWord, vmem_value-IsWord, get_operand_data-IsWord,
}
use weeper_vm.Invariant.Write.{write_to_vmem-IsWf, write_reg-IsWf, write_back-IsWf}

module _ {m : Machine} (wf : IsWf m) where
  lea_value-IsWord : (v a : ℕ) → Ensures IsWord (lea_value m v a)
  unfolding lea_value
  lea_value-IsWord v a =
      branch (not (v == 0)) (mono (vmem_at-IsByte wf a) λ b h. omega arith)
        (branch (v_int == v_short) (vmem_short-IsWord wf a) (vmem_int-IsWord wf a))

  module _ (op1 op2 : Operand) where
    pub mov-IsWf : Ensures IsWf (handle_mov m op1 op2)
    unfolding handle_mov
    mov-IsWf = bind (get_operand_data-IsWord wf 0x37 op2) λ x hx. write_back-IsWf wf op1 _ _ x _ hx

    pub lea-IsWf : Ensures IsWf (handle_lea m op1 op2)
    unfolding handle_lea
    lea-IsWf = bind (get_operand_data-IsWord wf 0x1d (record op2 { v = v_int })) λ a _.
        bind (lea_value-IsWord op2.v a) λ x hx.
          branch (op1.t == op_reg) (write_reg-IsWf wf op1 _ x hx) (
            branch (op1.t == op_mem)
              (bind (anyhow (calculate_memory_offset m op1))
                λ offs _. write_to_vmem-IsWf wf offs x _ _)
              (returns wf))

    pub put-IsWf : Ensures IsWf (handle_put m op1 op2)
    unfolding handle_put
    put-IsWf = bind (get_operand_data-IsWord wf 0x9a op1) λ id _.
        bind (anyhow (legacy_top m)) λ _ _.
          bind (anyhow (local_offset m id))
            λ a _. bind (get_operand_data-IsWord wf 0x20 op2) λ x _. write_to_vmem-IsWf wf a x _ _

    pub get-IsWf : Ensures IsWf (handle_get m op1 op2)
    unfolding handle_get
    get-IsWf = bind (get_operand_data-IsWord wf 0x9a op2) λ id _.
        bind (anyhow (legacy_top m)) λ _ _.
          bind (anyhow (local_offset m id))
            λ a _. bind (vmem_value-IsWord wf op2.v a) λ x hx. write_back-IsWf wf op1 _ _ x _ hx
