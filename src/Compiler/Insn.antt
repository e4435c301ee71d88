-- ===== src/Compiler/Insn.antt =====
-- A whole instruction: what the compiler packs, and what the machine does with it.
pub mod Layout
pub mod Parts
pub mod Place
pub mod Reads
pub mod Runs
pub mod Alu
pub mod Exit
use weeper_vm.Base.{ℕ, ◌≡◌, ◌≢◌, ◌+◌, Option, none, some, List, ok}
use weeper_vm.Machine.{Machine}
use weeper_vm.Operand.{Operand, op_none, op_reg, operand_byte, get_operand_data}
use weeper_vm.Compiler.{Parsed, no_operand, pack, correct_fallthrough}
use weeper_vm.Compiler.Meaning.{Source, reg, parse_operand, meaning, IsSource}

-- An operand that may be missing, which is padded.
unfoldable pub parse_maybe : Option Source → Option Parsed
parse_maybe none = some no_operand
parse_maybe (some s) = parse_operand s

-- The bytes of an instruction once its address of the next one is corrected.
unfoldable pub compile_insn : (l o c fallthrough : ℕ) → (a b : Option Source) → Option (List ℕ)
compile_insn l o c fallthrough a b = elim (parse_maybe a) [
  | none ↦ none
  | some p ↦ elim (parse_maybe b) [
    | none ↦ none
    | some q ↦ elim (pack l o c p q) [
      | none ↦ none
      | some packed ↦ some (correct_fallthrough packed fallthrough)
    ]
  ]
]

-- A missing operand has no type, and one that is there has one and is read as what it means.
abbrev pub Means : Machine → Operand → Option Source → Type 0
Means m op none = op.t ≡ op_none
Means m op (some s) = (op.t ≢ op_none) × ((trash : ℕ) → get_operand_data m trash op ≡ meaning m s)

-- Operands of the language, the second only behind a first.
abbrev pub AreSources : Option Source → Option Source → Type 0
AreSources none none = Unit
AreSources none (some b) = ⊥
AreSources (some a) none = IsSource a
AreSources (some a) (some b) = IsSource a × IsSource b

-- A register operand names its register.
abbrev pub Names : Machine → Operand → Option Source → Type 0
Names m op (some (reg v r)) = (op.t ≡ op_reg) × (op.v ≡ v) × (operand_byte m op 0 ≡ ok r)
Names m op s = Unit
