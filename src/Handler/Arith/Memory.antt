-- ===== src/Handler/Arith/Memory.antt =====
-- What the arithmetic instructions leave in memory.
use weeper_vm.Base.{
  ℕ, zero, suc, ◌+◌, ◌-◌, ◌*◌, ◌%◌, ◌^◌, ◌≤◌, ◌≡◌, refl, sym, arith, ok, ◌∙◌, ap, ensured, Bool,
  true, false, undefined, if◌then◌else◌,
}
use weeper_vm.Machine.{Machine, vmem_size}
use weeper_vm.Memory.Store.{size_of, put_bytes, get_bytes}
use weeper_vm.Memory.Words.{put_bytes-cong, write_expanded}
use weeper_vm.Operand.{Operand, op_mem, calculate_memory_offset, get_operand_data}
use weeper_vm.Operand.Value.{vmem_value-get_bytes}
use weeper_vm.Handler.Arith.{
  Operator, alu_mem, alu, add32, minus32, mul32, handle_add, handle_sub, handle_mul,
}
use weeper_vm.Handler.Arith.Reg.{IsSize, span, mod_span, sub_span}
use weeper_vm.Invariant.{IsWf}
use weeper_vm.Invariant.Read.{get_operand_data-IsWord}

-- The bytes at `a` replaced by those of `x`.
abbrev pub with_bytes : Machine → ℕ → ℕ → ℕ → Machine
with_bytes m v a x = record m { vmem = put_bytes (size_of v) m.vmem a x }

module _ {m : Machine} (wf : IsWf m) (op1 op2 : Operand) (a src : ℕ) (is_mem : op1.t ≡ op_mem)
    (size : IsSize op1.v) (place : calculate_memory_offset m op1 ≡ ok a)
    (room : a + 4 ≤ vmem_size) where
  alu_mem-with_bytes :
      (f : Operator) (trash res : ℕ)
      → f (get_bytes (size_of op1.v) m.vmem a) src ≡ ok res
      → alu_mem f m op1 src trash ≡ ok (with_bytes m op1.v a res)
  unfolding alu_mem
  alu_mem-with_bytes f trash res e =
      rw (place, vmem_value-get_bytes m wf.mem_bytes op1.v a size room, e)
        (write_expanded m a res op1.v trash (omega arith) room)

  pub alu-with_bytes :
      (rt wt : ℕ) (f g : Operator) (res y : ℕ)
      → get_operand_data m rt op2 ≡ ok src
      → g (get_bytes (size_of op1.v) m.vmem a) src ≡ ok res
      → res % span op1.v ≡ y % span op1.v
      → alu rt wt f g m op1 op2 ≡ ok (with_bytes m op1.v a y)
  unfolding alu
  alu-with_bytes rt wt f g res y es e same =
      simp (es, is_mem) (alu_mem-with_bytes g wt res e)
      ∙ ap (λ b. ok (record m { vmem = b })) (put_bytes-cong m.vmem a res y op1.v same)

  -- An operator that is defined under a test only.
  pub alu-where_defined :
      (rt wt : ℕ) (f g : Operator) (b : Bool) (res y : ℕ)
      → get_operand_data m rt op2 ≡ ok src
      → g (get_bytes (size_of op1.v) m.vmem a) src ≡ (if b then ok res else undefined)
      → res % span op1.v ≡ y % span op1.v
      → alu rt wt f g m op1 op2 ≡ (if b then ok (with_bytes m op1.v a y) else undefined)
  unfolding alu alu_mem
  alu-where_defined rt wt f g true res y es e same = alu-with_bytes rt wt f g res y es e same
  alu-where_defined rt wt f g false res y es e same =
      simp (es, is_mem) (rw (place, vmem_value-get_bytes m wf.mem_bytes op1.v a size room, e) refl)

-- A remainder taken twice, and sums and products that are cut to 32 bits first.
pub twice : (v n : ℕ) → IsSize v → n % span v % span v ≡ n % span v
twice zero n h = absurd (omega arith)
twice (suc zero) n h = omega arith
twice (suc (suc zero)) n h = omega arith
twice (suc (suc (suc zero))) n h = omega arith
twice (suc (suc (suc (suc v)))) n h = absurd (omega arith)

cut : (v a b : ℕ) → IsSize v → (b + a) % 2 ^ 32 % span v ≡ (a + b) % span v % span v
cut v a b h =
    mod_span v (b + a) h ∙ ap (λ (n : ℕ). n % span v) (omega arith) ∙ sym (twice v (a + b) h)

product : (v a b : ℕ) → IsSize v → b * a % 2 ^ 32 % span v ≡ a * b % span v % span v
product v a b h =
    mod_span v (b * a) h ∙ ap (λ (n : ℕ). n % span v) (omega arith) ∙ sym (twice v (a * b) h)

-- ADD, SUB and MUL on memory, from a well-formed state and with the four bytes from the address on
-- inside, are arithmetic of the width that the size names, on the big-endian value at the address:
-- its bytes are replaced by those of the result, and nothing else of the state changes.
pub alu-in_memory :
    (m : Machine) (op1 op2 : Operand) (a x y z : ℕ)
    → IsWf m
    → op1.t ≡ op_mem
    → IsSize op1.v
    → calculate_memory_offset m op1 ≡ ok a
    → a + 4 ≤ vmem_size
    → get_operand_data m 0x9e op2 ≡ ok x
    → get_operand_data m 0x0f op2 ≡ ok y
    → get_operand_data m 0x2f op2 ≡ ok z
    → (let cur = get_bytes (size_of op1.v) m.vmem a in
        let w = span op1.v in
        (handle_add m op1 op2 ≡ ok (with_bytes m op1.v a ((cur + x) % w)))
        × (handle_sub m op1 op2 ≡ ok (with_bytes m op1.v a ((cur % w + w - y % w) % w)))
        × (handle_mul m op1 op2 ≡ ok (with_bytes m op1.v a (cur * z % w))))
unfolding handle_add handle_sub handle_mul add32 minus32 mul32
alu-in_memory m op1 op2 a x y z wf is_mem size place room ex ey ez = (
  alu-with_bytes wf op1 op2 a x is_mem size place room _ _ add32 _ _ _ ex refl
      (cut op1.v cur x size),
  alu-with_bytes wf op1 op2 a y is_mem size place room _ _ minus32 _ _ _ ey refl (
      sub_span op1.v cur y size (ensured (get_operand_data-IsWord wf 0x0f op2) ey)
      ∙ sym (twice op1.v _ size)),
  alu-with_bytes wf op1 op2 a z is_mem size place room _ _ mul32 _ _ _ ez refl
      (product op1.v cur z size),
)
  where
    cur : ℕ
    cur = get_bytes (size_of op1.v) m.vmem a
