-- ===== src/Compiler/Meaning.antt =====
-- What an operand of the assembly language means, and that the machine reads it so.
pub mod Immediate
pub mod Memory
pub mod Load
pub mod Encodes
pub mod Operands
pub mod Register
use weeper_vm.Base.{ℕ, ◌+◌, ◌%◌, ◌^◌, ◌<◌, Option, none, some, Run, ok, ◌>>=◌, u32}
use weeper_vm.Machine.{Machine}
use weeper_vm.Memory.Store.{size_of, load}
use weeper_vm.Handler.Arith.Reg.{IsSize, span}
use weeper_vm.Compiler.{Parsed, parse_register, parse_immediate, parse_memory}

-- The operands of the language: a register, a number, and the value in memory at the sum of two
-- registers, at the sum of a register and a number, at a register, and at a number; each part with
-- its size.
pub data Source : Type 0 where
  reg : (v r : ℕ) → Source
  imm : (v x : ℕ) → Source
  mem_sum : (v bv br dv dr : ℕ) → Source
  mem_disp : (v bv br dv d : ℕ) → Source
  mem_base : (v bv br : ℕ) → Source
  mem_at : (v av a : ℕ) → Source

-- The parsers composed as `parse_operand` composes them.
unfoldable pub parse_operand : Source → Option Parsed
parse_operand (reg v r) = some (parse_register v r)
parse_operand (imm v x) = parse_immediate v x
parse_operand (mem_sum v bv br dv dr) =
    parse_memory v (parse_register bv br) (some (parse_register dv dr))
parse_operand (mem_disp v bv br dv d) = elim (parse_immediate dv d) [
  | none ↦ none
  | some p ↦ parse_memory v (parse_register bv br) (some p)
]
parse_operand (mem_base v bv br) = parse_memory v (parse_register bv br) none
parse_operand (mem_at v av a) = elim (parse_immediate av a) [
  | none ↦ none
  | some p ↦ parse_memory v p none
]

-- The part of a register.
abbrev pub part : Machine → ℕ → ℕ → ℕ
part m v r = m.vregs r % span v

-- The value of an operand.
abbrev pub meaning : Machine → Source → Run ℕ
meaning m (reg v r) = ok (part m v r)
meaning m (imm v x) = ok (x % span v)
meaning m (mem_sum v bv br dv dr) = load (size_of v) m (u32 (part m bv br + part m dv dr))
meaning m (mem_disp v bv br dv d) = load (size_of v) m (u32 (part m bv br + d))
meaning m (mem_base v bv br) = load (size_of v) m (part m bv br)
meaning m (mem_at v av a) = load (size_of v) m a

-- The sizes are those of the language, and the registers those that there are.
abbrev pub IsSource : Source → Type 0
IsSource (reg v r) = IsSize v × (r < 16)
IsSource (imm v x) = IsSize v
IsSource (mem_sum v bv br dv dr) = IsSize v × IsSize bv × (br < 16) × IsSize dv × (dr < 16)
IsSource (mem_disp v bv br dv d) = IsSize v × IsSize bv × (br < 16) × IsSize dv
IsSource (mem_base v bv br) = IsSize v × IsSize bv × (br < 16)
IsSource (mem_at v av a) = IsSize v × IsSize av
