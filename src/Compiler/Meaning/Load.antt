-- ===== src/Compiler/Meaning/Load.antt =====
-- The value of a size at an address, in memory or not.
use weeper_vm.Base.{
  ℕ, zero, suc, ◌+◌, ◌≤◌, ◌<◌, ◌≡◌, sym, ◌∙◌, arith, ok, undefined, ◌==◌, if◌then◌else◌,
}
use native.Mathlib.Decide.{dec_le}
use weeper_vm.Memory.Store.{size_of, load, get_bytes}
use weeper_vm.Memory.Read.{vmem_at-get_bytes, vmem_short-get_bytes, vmem_int-get_bytes}
use weeper_vm.Machine.{Machine, vmem_size, vmem_at}
use weeper_vm.Operand.{Operand, vmem_short, vmem_int, calculate_memory_offset, get_operand_data_mem}
use weeper_vm.Handler.Arith.Reg.{IsSize}

load-in : (n : ℕ) (m : Machine) (a : ℕ) → a + n ≤ vmem_size → load n m a ≡ ok (get_bytes n m.vmem a)
load-in n m a h = ground arith

load-out : (n : ℕ) (m : Machine) (a : ℕ) → 1 ≤ n → vmem_size < a + n → load n m a ≡ undefined
load-out n m a lo h = ground arith

-- An access that begins inside, and ends outside, is undefined as one that begins outside is.
vmem_at-out : (m : Machine) (a : ℕ) → vmem_size ≤ a → vmem_at m a ≡ undefined
unfolding vmem_at
vmem_at-out m a h = ground arith

vmem_short-out : (m : Machine) (a : ℕ) → vmem_size < a + 2 → vmem_short m a ≡ undefined
unfolding vmem_short vmem_at
vmem_short-out m a h = ground arith

vmem_int-out : (m : Machine) (a : ℕ) → vmem_size < a + 4 → vmem_int m a ≡ undefined
unfolding vmem_int vmem_at
vmem_int-out m a h = ground arith

module _ (m : Machine) (bytes : (j : ℕ) → m.vmem j < 256) (a : ℕ) where
  vmem_at-load : vmem_at m a ≡ load 1 m a
  vmem_at-load = elim (dec_le (a + 1) vmem_size) [
    | yes h ↦ vmem_at-get_bytes m bytes a (omega arith) ∙ sym (load-in 1 m a h)
    | no h ↦ vmem_at-out m a (omega arith) ∙ sym (load-out 1 m a (omega arith) (omega arith))
  ]

  vmem_short-load : vmem_short m a ≡ load 2 m a
  vmem_short-load = elim (dec_le (a + 2) vmem_size) [
    | yes h ↦ vmem_short-get_bytes m bytes a h ∙ sym (load-in 2 m a h)
    | no h ↦ vmem_short-out m a (omega arith) ∙ sym (load-out 2 m a (omega arith) (omega arith))
  ]

  vmem_int-load : vmem_int m a ≡ load 4 m a
  vmem_int-load = elim (dec_le (a + 4) vmem_size) [
    | yes h ↦ vmem_int-get_bytes m bytes a h ∙ sym (load-in 4 m a h)
    | no h ↦ vmem_int-out m a (omega arith) ∙ sym (load-out 4 m a (omega arith) (omega arith))
  ]

  by_size-load :
      (v : ℕ)
      → IsSize v
      → (if v == 1
          then vmem_at m a
          else if v == 2
          then vmem_short m a
          else if v == 3
          then vmem_int m a
          else ok 0)
        ≡ load (size_of v) m a
  by_size-load zero h = absurd (omega arith)
  by_size-load (suc zero) h = vmem_at-load
  by_size-load (suc (suc zero)) h = vmem_short-load
  by_size-load (suc (suc (suc zero))) h = vmem_int-load
  by_size-load (suc (suc (suc (suc v)))) h = absurd (omega arith)

-- A value of a size at an address, in memory or not.
pub mem-load :
    (m : Machine) (op : Operand) (a : ℕ)
    → ((j : ℕ) → m.vmem j < 256)
    → IsSize op.v
    → calculate_memory_offset m op ≡ ok a
    → get_operand_data_mem m op ≡ load (size_of op.v) m a
unfolding get_operand_data_mem
mem-load m op a bytes size place = rw place (by_size-load m bytes a op.v size)
