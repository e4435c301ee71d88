-- ===== src/Invariant/Arith.antt =====
-- The arithmetic and bitwise handlers keep the invariant.
use weeper_vm.Base.{ℕ, arith, Ensures, returns, stuck, bind, anyhow, ltb, bit_and, ◌==◌}
use weeper_vm.Base.Bits.{or-lt, xor-lt, and-le}
use weeper_vm.Machine.{Machine}
use weeper_vm.Memory.{pre_v_truncation, post_v_truncation, vmem_expansion}
use weeper_vm.Operand.{Operand, op_reg, op_mem, calculate_memory_offset, vmem_value}
use weeper_vm.Handler.Arith.{
  add32, minus32, mul32, div32, mod32, shl32, shr32, Operator, alu_reg, alu_mem, alu, handle_add,
  handle_sub, handle_mul, handle_div, handle_mod, handle_and, handle_or, handle_xor, handle_shl,
  handle_shr, handle_not,
}
use weeper_vm.Invariant.Defs.{IsWord, IsWf, branch}
use weeper_vm.Invariant.Read.{
  operand_byte-IsByte, vreg_at-IsWord, pre_v_truncation-IsWord, post_v_truncation-IsWord,
  get_operand_data-IsWord,
}
use weeper_vm.Invariant.Write.{vreg_set-IsWf, write_to_vmem-IsWf, write_mem-IsWf}

-- An operator that makes words of words.
abbrev pub OnWords : Operator → Type 0
OnWords f = (a b : ℕ) → IsWord a → IsWord b → Ensures IsWord (f a b)

add32-OnWords : OnWords add32
unfolding add32
add32-OnWords a b ha hb = returns (omega arith)

minus32-OnWords : OnWords minus32
unfolding minus32
minus32-OnWords a b ha hb = returns (omega arith)

mul32-OnWords : OnWords mul32
unfolding mul32
mul32-OnWords a b ha hb = returns (omega arith)

div32-OnWords : OnWords div32
unfolding div32
div32-OnWords a b ha hb = branch (b == 0) stuck (returns (omega arith))

pub mod32-OnWords : OnWords mod32
unfolding mod32
mod32-OnWords a b ha hb = branch (b == 0) stuck (returns (omega arith))

pub shl32-IsWord : (a b : ℕ) → Ensures IsWord (shl32 a b)
unfolding shl32
shl32-IsWord a b = branch (ltb b 32) (returns (omega arith)) stuck

pub shr32-IsWord : (a b : ℕ) → IsWord a → Ensures IsWord (shr32 a b)
unfolding shr32
shr32-IsWord a b ha = branch (ltb b 32) (returns (omega arith)) stuck

module _ {m : Machine} (wf : IsWf m) where
  alu_reg-IsWf :
      (f : Operator) (op : Operand) (src : ℕ)
      → OnWords f
      → IsWord src
      → Ensures IsWf (alu_reg f m op src)
  unfolding alu_reg
  alu_reg-IsWf f op src hf hs = bind (operand_byte-IsByte wf op 0) λ d0 _.
      bind (vreg_at-IsWord wf (bit_and d0 0x0f)) λ reg hr. bind (hf reg src hr hs) λ res h.
        vreg_set-IsWf wf (bit_and d0 0x0f) _ (
          or-lt 32 (pre_v_truncation reg op.v) (post_v_truncation res op.v)
            (pre_v_truncation-IsWord reg op.v hr) (post_v_truncation-IsWord res op.v h))

  alu_mem-IsWf :
      (f : Operator) (op : Operand) (src trash : ℕ) → Ensures IsWf (alu_mem f m op src trash)
  unfolding alu_mem
  alu_mem-IsWf f op src trash = bind (anyhow (calculate_memory_offset m op)) λ a _.
      bind (anyhow (vmem_value m op.v a)) λ cur _. bind (anyhow (f cur src)) λ res _.
        bind (anyhow (vmem_expansion m a res op.v))
          λ res' _. write_to_vmem-IsWf wf a res' op.v trash

  alu-IsWf :
      (rt wt : ℕ) (f g : Operator) (op1 op2 : Operand)
      → OnWords f
      → Ensures IsWf (alu rt wt f g m op1 op2)
  unfolding alu
  alu-IsWf rt wt f g op1 op2 hf = bind (get_operand_data-IsWord wf rt op2) λ src hs.
      branch (op1.t == op_reg) (alu_reg-IsWf f op1 src hf hs)
        (branch (op1.t == op_mem) (alu_mem-IsWf g op1 src wt) (returns wf))

  module _ (op1 op2 : Operand) where
    pub add-IsWf : Ensures IsWf (handle_add m op1 op2)
    unfolding handle_add
    add-IsWf = alu-IsWf _ _ _ _ op1 op2 add32-OnWords

    pub sub-IsWf : Ensures IsWf (handle_sub m op1 op2)
    unfolding handle_sub
    sub-IsWf = alu-IsWf _ _ _ _ op1 op2 minus32-OnWords

    pub mul-IsWf : Ensures IsWf (handle_mul m op1 op2)
    unfolding handle_mul
    mul-IsWf = alu-IsWf _ _ _ _ op1 op2 mul32-OnWords

    pub div-IsWf : Ensures IsWf (handle_div m op1 op2)
    unfolding handle_div
    div-IsWf = alu-IsWf _ _ _ _ op1 op2 div32-OnWords

    pub mod-IsWf : Ensures IsWf (handle_mod m op1 op2)
    unfolding handle_mod
    mod-IsWf = alu-IsWf _ _ _ _ op1 op2 mod32-OnWords

    pub and-IsWf : Ensures IsWf (handle_and m op1 op2)
    unfolding handle_and
    and-IsWf = alu-IsWf _ _ _ _ op1 op2 (λ a b ha hb. returns (omega (arith, and-le a b)))

    pub or-IsWf : Ensures IsWf (handle_or m op1 op2)
    unfolding handle_or
    or-IsWf = alu-IsWf _ _ _ _ op1 op2 (λ a b ha hb. returns (or-lt 32 a b ha hb))

    pub xor-IsWf : Ensures IsWf (handle_xor m op1 op2)
    unfolding handle_xor
    xor-IsWf = alu-IsWf _ _ _ _ op1 op2 (λ a b ha hb. returns (xor-lt 32 a b ha hb))

    pub shl-IsWf : Ensures IsWf (handle_shl m op1 op2)
    unfolding handle_shl
    shl-IsWf = alu-IsWf _ _ _ _ op1 op2 (λ a b ha hb. shl32-IsWord a b)

    pub shr-IsWf : Ensures IsWf (handle_shr m op1 op2)
    unfolding handle_shr
    shr-IsWf = alu-IsWf _ _ _ _ op1 op2 (λ a b ha hb. shr32-IsWord a b ha)

    pub not-IsWf : Ensures IsWf (handle_not m op1 op2)
    unfolding handle_not
    not-IsWf = bind (get_operand_data-IsWord wf 0x1d op2) λ src hs.
        branch (op1.t == op_reg) (alu_reg-IsWf _ op1 src (λ a b ha hb. returns (omega arith)) hs)
          (branch (op1.t == op_mem) (write_mem-IsWf wf op1 _ _ _ _) (returns wf))
