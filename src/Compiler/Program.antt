-- ===== src/Compiler/Program.antt =====
-- A program of the assembly language without jumps: what it means, and what the compiler makes of
-- it up to the shuffle.
pub mod Width
pub mod Step
pub mod Shuffle
pub mod Placed
pub mod Runs
use weeper_vm.Base.{
  ℕ, zero, suc, ◌+◌, ◌*◌, ◌/◌, ◌%◌, ◌^◌, ◌<◌, ◌≤◌, ◌≡◌, Option, none, some, List, [], ◌∷◌, All, Run,
  ok, exited, ◌>>=◌,
}
use mathlib.Core.List.{Perm}
use weeper_vm.Machine.{Machine}
use weeper_vm.Handler.Arith.Reg.{IsSize, span}
use weeper_vm.Handler.Arith.Bitwise.{with_low}
use weeper_vm.Compiler.Meaning.{
  Source, reg, imm, mem_sum, mem_disp, mem_base, mem_at, meaning, IsSource,
}
use weeper_vm.Compiler.Insn.Alu.{Alu, alu_code, computes}
use weeper_vm.Compiler.Link.{Item, pack_insn}

-- MOV, or an arithmetic or bitwise instruction.
pub data Action : Type 0 where
  move : Action
  compute : Alu → Action

-- The numbers of OPCODES.
abbrev pub action_code : Action → ℕ
action_code move = 0
action_code (compute i) = alu_code i

-- The instruction with the register `r` at the size `v` as its destination, and its source.
pub record Line : Type 0 where
  pub act : Action
  pub v : ℕ
  pub r : ℕ
  pub s : Source

-- What comes of the low part of the register and the source.
abbrev pub result : Action → (w low x : ℕ) → ℕ
result move w low x = x
result (compute i) w low x = computes i w low (x % w)

-- What a line does: the result replaces the low part of its register.
abbrev pub run_line : Machine → Line → Run Machine
run_line m c = meaning m c.s >>= λ x.
    ok (with_low m c.v c.r (result c.act (span c.v) (m.vregs c.r % span c.v) x))

-- The lines in the order of the source, and then EXIT with `e`.
abbrev pub run_lines : List Line → Source → Machine → Run (Option Machine)
run_lines [] e m = meaning m e >>= λ c. exited c
run_lines (c ∷ cs) e m = run_line m c >>= λ m'. run_lines cs e m'

abbrev pub source_size : Source → ℕ
source_size (reg v r) = v
source_size (imm v x) = v
source_size (mem_sum v bv br dv dr) = v
source_size (mem_disp v bv br dv d) = v
source_size (mem_base v bv br) = v
source_size (mem_at v av a) = v

-- MOV is not from a wider source.
abbrev pub Fits : Action → Source → ℕ → Type 0
Fits move s v = source_size s ≤ v
Fits (compute i) s v = Unit

-- The register and the sizes are those of the language.
abbrev pub IsLine : Line → Type 0
IsLine c = IsSource (reg c.v c.r) × IsSource c.s × Fits c.act c.s c.v

-- The instruction at a place of the source with the left half and the cipher that are drawn for it.
abbrev pub line_item : (left cipher : ℕ → ℕ) (old : ℕ) → Line → Item
line_item left cipher old c = record {
  l = left old;
  o = cipher old;
  c = action_code c.act;
  a = some (reg c.v c.r);
  b = some c.s;
  old = old;
}

abbrev pub exit_item : (left cipher : ℕ → ℕ) (old : ℕ) → Source → Item
exit_item left cipher old e = record {
  l = left old;
  o = cipher old;
  c = 13;
  a = some e;
  b = none;
  old = old;
}

abbrev pub items : (left cipher : ℕ → ℕ) (old : ℕ) → List Line → Source → List Item
items left cipher old [] e = exit_item left cipher old e ∷ []
items left cipher old (c ∷ cs) e = line_item left cipher old c ∷ items left cipher (suc old) cs e

-- `combined`: the packed instructions with their places in the source.
unfoldable pub zip_packed : List Item → Option (List (List ℕ × ℕ))
zip_packed [] = some []
zip_packed (i ∷ is) = elim (pack_insn i) [
  | none ↦ none
  | some packed ↦ elim (zip_packed is) [ none ↦ none | some rest ↦ some ((packed, i.old) ∷ rest) ]
]

-- `combined[1:] = subcombined`: the first instruction stays, and the others are in any order.
abbrev pub IsShuffle : List (List ℕ × ℕ) → List (List ℕ × ℕ) → Type 0
IsShuffle [] shuffled = ⊥
IsShuffle (t ∷ combined) [] = ⊥
IsShuffle (t ∷ combined) (u ∷ shuffled) = (u ≡ t) × Perm shuffled combined
