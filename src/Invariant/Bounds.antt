-- ===== src/Invariant/Bounds.antt =====
-- What an operand is read as fits the size that the operand names.
use weeper_vm.Base.{
  ℕ, zero, suc, ◌+◌, ◌^◌, ◌<◌, ◌≤◌, arith, Ensures, returns, stuck, bind, mono, anyhow, bit_and,
  ◌==◌, ok, if◌then◌else◌,
}
use weeper_vm.Machine.{Machine, vmem_at}
use weeper_vm.Memory.{v_byte, v_short, v_int, post_v_truncation}
use weeper_vm.Memory.Mask.{and-0xff, and-0xffff, and-0xffffffff}
use weeper_vm.Memory.Store.{size_of}
use weeper_vm.Operand.{
  Operand, operand_byte, calculate_memory_offset, vmem_short, vmem_int, immediate_word,
  get_operand_data_reg, get_operand_data_imm, get_operand_data_mem, reader_index, get_operand_data,
}
use weeper_vm.Invariant.{IsWf, branch}
use weeper_vm.Invariant.Read.{vmem_at-IsByte, vreg_at-IsWord, vmem_int-IsWord, short-lt}

-- A value of so many bytes.
abbrev pub FitsSize : ℕ → ℕ → Type 0
FitsSize v x = x < 256 ^ size_of v

cut-FitsSize : (v x : ℕ) → 1 ≤ v → v ≤ 3 → FitsSize v (post_v_truncation x v)
unfolding post_v_truncation
cut-FitsSize zero x lo hi = absurd (omega arith)
cut-FitsSize (suc zero) x lo hi = omega (arith, and-0xff x)
cut-FitsSize (suc (suc zero)) x lo hi = omega (arith, and-0xffff x)
cut-FitsSize (suc (suc (suc zero))) x lo hi = omega (arith, and-0xffffffff x)
cut-FitsSize (suc (suc (suc (suc v)))) x lo hi = absurd (omega arith)

module _ {m : Machine} (wf : IsWf m) where
  vmem_short-lt : (a : ℕ) → Ensures (λ x. x < 2 ^ 16) (vmem_short m a)
  unfolding vmem_short
  vmem_short-lt a =
      bind (vmem_at-IsByte wf a)
        λ b0 h0. bind (vmem_at-IsByte wf (a + 1)) λ b1 h1. returns (short-lt b0 b1 h0 h1)

  module _ (op : Operand) (lo : 1 ≤ op.v) (hi : op.v ≤ 3) where
    reg-FitsSize : Ensures (FitsSize op.v) (get_operand_data_reg m op)
    unfolding get_operand_data_reg
    reg-FitsSize = bind (anyhow (operand_byte m op 0)) λ d0 _.
        bind (vreg_at-IsWord wf (bit_and d0 0x0f)) λ x _. returns (cut-FitsSize op.v x lo hi)

    imm-FitsSize : Ensures (FitsSize op.v) (get_operand_data_imm m op)
    unfolding get_operand_data_imm
    imm-FitsSize = bind (anyhow (immediate_word m op)) λ x _. returns (cut-FitsSize op.v x lo hi)

  mem-FitsSize :
      (op : Operand) → 1 ≤ op.v → op.v ≤ 3 → Ensures (FitsSize op.v) (get_operand_data_mem m op)
  unfolding get_operand_data_mem
  mem-FitsSize op lo hi = bind (anyhow (calculate_memory_offset m op)) λ a _. sized op.v a lo hi
    where
      sized :
          (v a : ℕ)
          → 1 ≤ v
          → v ≤ 3
          → Ensures (FitsSize v) (
              if v == v_byte
              then vmem_at m a
              else if v == v_short
              then vmem_short m a
              else if v == v_int
              then vmem_int m a
              else ok 0)
      sized zero a lo hi = absurd (omega arith)
      sized (suc zero) a lo hi = mono (vmem_at-IsByte wf a) λ x h. omega (arith, h)
      sized (suc (suc zero)) a lo hi = mono (vmem_short-lt a) λ x h. omega (arith, h)
      sized (suc (suc (suc zero))) a lo hi = mono (vmem_int-IsWord wf a) λ x h. omega (arith, h)
      sized (suc (suc (suc (suc v)))) a lo hi = absurd (omega arith)

  -- In a well-formed state an operand of size byte, short or int, whatever its type and the junk
  -- that it is read with, gives a value of that size, if it gives one.
  pub get_operand_data-FitsSize :
      (trash : ℕ) (op : Operand)
      → 1 ≤ op.v
      → op.v ≤ 3
      → Ensures (FitsSize op.v) (get_operand_data m trash op)
  unfolding get_operand_data
  get_operand_data-FitsSize trash op lo hi =
      branch (reader_index op.t trash == 1) (reg-FitsSize op lo hi) (
        branch (reader_index op.t trash == 2) (mem-FitsSize op lo hi)
          (branch (reader_index op.t trash == 3) (imm-FitsSize op lo hi) stuck))
