-- ===== src/Handler/Arith/BitMemory.antt =====
-- What the bitwise instructions and the shifts leave in memory.
use weeper_vm.Base.{
  ℕ, ◌+◌, ◌*◌, ◌/◌, ◌%◌, ◌^◌, ◌≤◌, ◌≡◌, refl, sym, ok, bit_and, bit_or, bit_xor, ◌∙◌, ap, ltb,
  undefined, if◌then◌else◌,
}
use weeper_vm.Base.Bits.{and_split, or_split, xor_split, or-lt, xor-lt}
use weeper_vm.Machine.{Machine, vmem_size}
use weeper_vm.Memory.Store.{size_of, get_bytes}
use weeper_vm.Operand.{Operand, op_mem, calculate_memory_offset, get_operand_data}
use weeper_vm.Handler.Arith.{
  shl32, shr32, handle_and, handle_or, handle_xor, handle_shl, handle_shr,
}
use weeper_vm.Handler.Arith.Reg.{IsSize, span, mod_span}
use weeper_vm.Handler.Arith.Memory.{with_bytes, alu-with_bytes, alu-where_defined, twice}
use weeper_vm.Handler.Arith.Bitwise.{span_part, and-lt}
use weeper_vm.Invariant.{IsWf}

-- What is cut already.
cut_part : (v res y : ℕ) → IsSize v → res % span v ≡ y → res % span v ≡ y % span v
cut_part v res y h e = sym (twice v res h) ∙ ap (λ (n : ℕ). n % span v) e

-- AND, OR, XOR, SHL and SHR on memory, from a well-formed state and with the four bytes from the
-- address on inside. AND, OR and XOR work on the bits of the width that the size names, whatever
-- the value in memory. SHL and SHR shift the source by the value in memory, and not the value by
-- the source as they do on a register, and are undefined if that value is 32 or more. The bytes of
-- the value are replaced by those of the result, and nothing else of the state changes.
pub bitwise-in_memory :
    (m : Machine) (op1 op2 : Operand) (a x y z s t : ℕ)
    → IsWf m
    → op1.t ≡ op_mem
    → IsSize op1.v
    → calculate_memory_offset m op1 ≡ ok a
    → a + 4 ≤ vmem_size
    → get_operand_data m 0x3d op2 ≡ ok x
    → get_operand_data m 0x38 op2 ≡ ok y
    → get_operand_data m 0x18 op2 ≡ ok z
    → get_operand_data m 0x69 op2 ≡ ok s
    → get_operand_data m 0x24 op2 ≡ ok t
    → (let cur = get_bytes (size_of op1.v) m.vmem a in
        let w = span op1.v in
        (handle_and m op1 op2 ≡ ok (with_bytes m op1.v a (bit_and (x % w) (cur % w))))
        × (handle_or m op1 op2 ≡ ok (with_bytes m op1.v a (bit_or (y % w) (cur % w))))
        × (handle_xor m op1 op2 ≡ ok (with_bytes m op1.v a (bit_xor (z % w) (cur % w))))
        × (handle_shl m op1 op2
            ≡ (if ltb cur 32 then ok (with_bytes m op1.v a (s * 2 ^ cur)) else undefined))
        × (handle_shr m op1 op2
            ≡ (if ltb cur 32 then ok (with_bytes m op1.v a (t / 2 ^ cur)) else undefined)))
unfolding handle_and handle_or handle_xor handle_shl handle_shr shl32 shr32
bitwise-in_memory m op1 op2 a x y z s t wf is_mem size place room ex ey ez es et =
    let v = op1.v in
    let cur = get_bytes (size_of v) m.vmem a in
    (
      alu-with_bytes wf op1 op2 a x is_mem size place room _ _ _ _ _ _ ex refl
          (cut_part v _ _ size (span_part bit_and and_split and-lt v x cur size)),
      alu-with_bytes wf op1 op2 a y is_mem size place room _ _ _ _ _ _ ey refl
          (cut_part v _ _ size (span_part bit_or or_split or-lt v y cur size)),
      alu-with_bytes wf op1 op2 a z is_mem size place room _ _ _ _ _ _ ez refl
          (cut_part v _ _ size (span_part bit_xor xor_split xor-lt v z cur size)),
      alu-where_defined wf op1 op2 a s is_mem size place room _ _ _ _ (ltb cur 32) _ _ es refl
          (mod_span v (s * 2 ^ cur) size),
      alu-where_defined wf op1 op2 a t is_mem size place room _ _ _ _ (ltb cur 32) _ _ et refl refl,
    )
