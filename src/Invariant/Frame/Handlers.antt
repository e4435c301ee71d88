-- ===== src/Invariant/Frame/Handlers.antt =====
-- The handlers that compute a value for their first operand change no other part.
use weeper_vm.Base.{ℕ, ◌≡◌, refl, Run, returns, bind, anyhow, bit_and, ◌==◌, true}
use weeper_vm.Machine.{Machine, vreg_at}
use weeper_vm.Memory.{v_int, vmem_expansion}
use weeper_vm.Operand.{
  Operand, op_reg, op_mem, operand_byte, calculate_memory_offset, vmem_value, get_operand_data,
}
use weeper_vm.Handler.Write.{write_reg, write_mem, write_back}
use weeper_vm.Handler.Move.{
  handle_mov, lea_value, handle_lea, legacy_top, local_offset, handle_put, handle_get,
}
use weeper_vm.Handler.Arith.{
  mod32, Operator, alu_reg, alu_mem, alu, handle_add, handle_sub, handle_mul, handle_div,
  handle_mod, handle_and, handle_or, handle_xor, handle_shl, handle_shr, handle_not,
}
use weeper_vm.Handler.Special.{
  handle_swap, bit_width, handle_rev, handle_packhi, handle_packlo, rotate_left, rotate_right,
  handle_rol, handle_ror,
}
use weeper_vm.Invariant.Frame.{memory, to_operand, only, Keeps}
use weeper_vm.Invariant.Frame.Writes.{under, unchanged, vreg_set-Frame, write_to_vmem-Frame}

-- What an instruction to this operand may do.
abbrev ToOperand : Machine → Operand → Run Machine → Type 0
ToOperand m op = Keeps (to_operand op) m

module _ (m : Machine) (op1 op2 : Operand) where
  alu_reg-Frame :
      (f : Operator) (src : ℕ) → (op1.t == op_reg) ≡ true → ToOperand m op1 (alu_reg f m op1 src)
  unfolding alu_reg
  alu_reg-Frame f src h = bind (anyhow (operand_byte m op1 0)) λ d0 _.
      bind (anyhow (vreg_at m (bit_and d0 0x0f))) λ reg _.
        bind (anyhow (f reg src)) λ res _. vreg_set-Frame m (unchanged m _) h (bit_and d0 0x0f) _

  alu_mem-Frame :
      (f : Operator) (src trash : ℕ)
      → (op1.t == op_mem) ≡ true
      → ToOperand m op1 (alu_mem f m op1 src trash)
  unfolding alu_mem
  alu_mem-Frame f src trash h = bind (anyhow (calculate_memory_offset m op1)) λ a _.
      bind (anyhow (vmem_value m op1.v a)) λ cur _. bind (anyhow (f cur src)) λ res _.
        bind (anyhow (vmem_expansion m a res op1.v))
          λ res' _. write_to_vmem-Frame h (unchanged m _) a res' op1.v trash

  write_reg-Frame : (v x : ℕ) → (op1.t == op_reg) ≡ true → ToOperand m op1 (write_reg m op1 v x)
  unfolding write_reg
  write_reg-Frame v x h = bind (anyhow (operand_byte m op1 0)) λ d0 _.
      bind (anyhow (vreg_at m (bit_and d0 0x0f)))
        λ reg _. vreg_set-Frame m (unchanged m _) h (bit_and d0 0x0f) _

  write_mem-Frame :
      (e v x trash : ℕ) → (op1.t == op_mem) ≡ true → ToOperand m op1 (write_mem m op1 e v x trash)
  unfolding write_mem
  write_mem-Frame e v x trash h = bind (anyhow (calculate_memory_offset m op1)) λ a _.
      bind (anyhow (vmem_expansion m a x e))
        λ x' _. write_to_vmem-Frame h (unchanged m _) a x' v trash

  back-Frame : (e v x trash : ℕ) → ToOperand m op1 (write_back m op1 e v x trash)
  unfolding write_back
  back-Frame e v x trash =
      under (op1.t == op_reg) (write_reg-Frame v x)
        (under (op1.t == op_mem) (write_mem-Frame e v x trash) (returns (unchanged m _)))

  alu-Frame : (rt wt : ℕ) (f g : Operator) → ToOperand m op1 (alu rt wt f g m op1 op2)
  unfolding alu
  alu-Frame rt wt f g = bind (anyhow (get_operand_data m rt op2)) λ src _.
      under (op1.t == op_reg) (alu_reg-Frame f src)
        (under (op1.t == op_mem) (alu_mem-Frame g src wt) (returns (unchanged m _)))

  pub mov-Frame : ToOperand m op1 (handle_mov m op1 op2)
  unfolding handle_mov
  mov-Frame = bind (anyhow (get_operand_data m 0x37 op2)) λ x _. back-Frame _ _ x _

  pub lea-Frame : ToOperand m op1 (handle_lea m op1 op2)
  unfolding handle_lea
  lea-Frame = bind (anyhow (get_operand_data m 0x1d (record op2 { v = v_int }))) λ a _.
      bind (anyhow (lea_value m op2.v a)) λ x _. under (op1.t == op_reg) (write_reg-Frame op1.v x) (
        under (op1.t == op_mem)
          (λ h.
            bind (anyhow (calculate_memory_offset m op1))
              λ offs _. write_to_vmem-Frame h (unchanged m _) offs x op1.v 0x9a)
          (returns (unchanged m _)))

  pub put-Frame : Keeps (only memory) m (handle_put m op1 op2)
  unfolding handle_put
  put-Frame = bind (anyhow (get_operand_data m 0x9a op1)) λ id _.
      bind (anyhow (legacy_top m)) λ _ _. bind (anyhow (local_offset m id)) λ a _.
        bind (anyhow (get_operand_data m 0x20 op2))
          λ x _. write_to_vmem-Frame refl (unchanged m _) a x _ _

  pub get-Frame : ToOperand m op1 (handle_get m op1 op2)
  unfolding handle_get
  get-Frame = bind (anyhow (get_operand_data m 0x9a op2)) λ id _.
      bind (anyhow (legacy_top m)) λ _ _.
        bind (anyhow (local_offset m id))
          λ a _. bind (anyhow (vmem_value m op2.v a)) λ x _. back-Frame _ _ x _

  pub add-Frame : ToOperand m op1 (handle_add m op1 op2)
  unfolding handle_add
  add-Frame = alu-Frame _ _ _ _

  pub sub-Frame : ToOperand m op1 (handle_sub m op1 op2)
  unfolding handle_sub
  sub-Frame = alu-Frame _ _ _ _

  pub mul-Frame : ToOperand m op1 (handle_mul m op1 op2)
  unfolding handle_mul
  mul-Frame = alu-Frame _ _ _ _

  pub div-Frame : ToOperand m op1 (handle_div m op1 op2)
  unfolding handle_div
  div-Frame = alu-Frame _ _ _ _

  pub mod-Frame : ToOperand m op1 (handle_mod m op1 op2)
  unfolding handle_mod
  mod-Frame = alu-Frame _ _ _ _

  pub and-Frame : ToOperand m op1 (handle_and m op1 op2)
  unfolding handle_and
  and-Frame = alu-Frame _ _ _ _

  pub or-Frame : ToOperand m op1 (handle_or m op1 op2)
  unfolding handle_or
  or-Frame = alu-Frame _ _ _ _

  pub xor-Frame : ToOperand m op1 (handle_xor m op1 op2)
  unfolding handle_xor
  xor-Frame = alu-Frame _ _ _ _

  pub shl-Frame : ToOperand m op1 (handle_shl m op1 op2)
  unfolding handle_shl
  shl-Frame = alu-Frame _ _ _ _

  pub shr-Frame : ToOperand m op1 (handle_shr m op1 op2)
  unfolding handle_shr
  shr-Frame = alu-Frame _ _ _ _

  pub not-Frame : ToOperand m op1 (handle_not m op1 op2)
  unfolding handle_not
  not-Frame = bind (anyhow (get_operand_data m 0x1d op2)) λ src _.
      under (op1.t == op_reg) (alu_reg-Frame _ src)
        (under (op1.t == op_mem) (λ h. write_mem-Frame _ _ _ _ h) (returns (unchanged m _)))

  pub swap-Frame : ToOperand m op1 (handle_swap m op1 op2)
  unfolding handle_swap
  swap-Frame = bind (anyhow (get_operand_data m 0xe5 op2)) λ src _. back-Frame _ _ _ _

  pub rev-Frame : ToOperand m op1 (handle_rev m op1 op2)
  unfolding handle_rev
  rev-Frame = bind (anyhow (get_operand_data m 0x13 op2)) λ src _. back-Frame _ _ _ _

  pub packhi-Frame : ToOperand m op1 (handle_packhi m op1 op2)
  unfolding handle_packhi
  packhi-Frame = bind (anyhow (get_operand_data m 0x4e op2)) λ src _.
      bind (anyhow (get_operand_data m 0xa3 (record op1 { v = op2.v }))) λ dst _. back-Frame _ _ _ _

  pub packlo-Frame : ToOperand m op1 (handle_packlo m op1 op2)
  unfolding handle_packlo
  packlo-Frame = bind (anyhow (get_operand_data m 0x4e op2)) λ src _.
      bind (anyhow (get_operand_data m 0xa3 (record op1 { v = op2.v }))) λ dst _. back-Frame _ _ _ _

  pub rol-Frame : ToOperand m op1 (handle_rol m op1 op2)
  unfolding handle_rol
  rol-Frame = bind (anyhow (get_operand_data m 0x74 op2)) λ n _.
      bind (anyhow (mod32 n (bit_width op1.v))) λ rot _.
        bind (anyhow (get_operand_data m 0x02 op1)) λ val _.
          bind (anyhow (rotate_left (bit_width op1.v) val rot)) λ res _. back-Frame _ _ res _

  pub ror-Frame : ToOperand m op1 (handle_ror m op1 op2)
  unfolding handle_ror
  ror-Frame = bind (anyhow (get_operand_data m 0xa2 op2)) λ n _.
      bind (anyhow (mod32 n (bit_width op1.v))) λ rot _.
        bind (anyhow (get_operand_data m 0x7a op1)) λ val _.
          bind (anyhow (rotate_right (bit_width op1.v) val rot)) λ res _. back-Frame _ _ res _
