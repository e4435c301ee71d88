-- ===== src/Handler/Arith/DivMemory.antt =====
-- What the divisions and NOT leave in memory.
use weeper_vm.Base.{
  ℕ, ◌+◌, ◌-◌, ◌/◌, ◌%◌, ◌^◌, ◌≤◌, ◌<◌, ◌≡◌, refl, sym, arith, ok, undefined, ◌∙◌, ap, ensured, not,
  ◌==◌, true, false, Bool, if◌then◌else◌,
}
use weeper_vm.Machine.{Machine, vmem_size}
use weeper_vm.Memory.Store.{size_of, get_bytes}
use weeper_vm.Memory.Words.{put_bytes-cong, write_expanded}
use weeper_vm.Operand.{Operand, op_mem, calculate_memory_offset, get_operand_data}
use weeper_vm.Handler.Write.{write_mem}
use weeper_vm.Handler.Arith.{div32, mod32, not32, handle_div, handle_mod, handle_not}
use weeper_vm.Handler.Arith.Reg.{IsSize, span}
use weeper_vm.Handler.Arith.Memory.{with_bytes, alu-where_defined, twice}
use weeper_vm.Handler.Arith.Bitwise.{not_span}
use weeper_vm.Invariant.{IsWf}
use weeper_vm.Invariant.Read.{get_operand_data-IsWord}

unless : (b : Bool) (x : ℕ) → (if b then undefined else ok x) ≡ (if not b then ok x else undefined)
unless true x = refl
unless false x = refl

-- The bytes of the complement are those of the complement of the width.
not_bytes :
    (v x : ℕ) → IsSize v → x < 2 ^ 32 → not32 x % span v ≡ (span v - 1 - x % span v) % span v
not_bytes v x size word =
    sym (twice v (not32 x) size) ∙ ap (λ (n : ℕ). n % span v) (not_span v x size word)

-- DIV, MOD and NOT on memory, from a well-formed state and with the four bytes from the address on
-- inside. DIV and MOD divide the value in memory, of the width that the size names and of no more
-- than that, by the source, and are undefined if the source is 0. NOT takes the bits of that width
-- of the source and complements them. The bytes of the value are replaced by those of the result,
-- and nothing else of the state changes.
pub divide-in_memory :
    (m : Machine) (op1 op2 : Operand) (a x y z : ℕ)
    → IsWf m
    → op1.t ≡ op_mem
    → IsSize op1.v
    → calculate_memory_offset m op1 ≡ ok a
    → a + 4 ≤ vmem_size
    → get_operand_data m 0xaa op2 ≡ ok x
    → get_operand_data m 0x60 op2 ≡ ok y
    → get_operand_data m 0x1d op2 ≡ ok z
    → (let cur = get_bytes (size_of op1.v) m.vmem a in
        let w = span op1.v in
        (handle_div m op1 op2
          ≡ (if not (x == 0) then ok (with_bytes m op1.v a (cur / x)) else undefined))
        × (handle_mod m op1 op2
            ≡ (if not (y == 0) then ok (with_bytes m op1.v a (cur % y)) else undefined))
        × (handle_not m op1 op2 ≡ ok (with_bytes m op1.v a (w - 1 - z % w))))
unfolding handle_div handle_mod handle_not div32 mod32 write_mem
divide-in_memory m op1 op2 a x y z wf is_mem size place room ex ey ez = (
  alu-where_defined wf op1 op2 a x is_mem size place room _ _ _ _ (not (x == 0)) _ _ ex
      (unless (x == 0) _) refl,
  alu-where_defined wf op1 op2 a y is_mem size place room _ _ _ _ (not (y == 0)) _ _ ey
      (unless (y == 0) _) refl,
  simp (ez, is_mem) (rw place (write_expanded m a (not32 z) op1.v 0xa2 (omega arith) room))
      ∙ ap (λ b. ok (record m { vmem = b }))
          (put_bytes-cong m.vmem a _ _ op1.v
            (not_bytes op1.v z size (ensured (get_operand_data-IsWord wf 0x1d op2) ez))),
)
