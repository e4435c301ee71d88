-- ===== src/Tests/Program.antt =====
-- Whole programs, compiled and run.
use weeper_vm.Base.{
  ℕ, ◌↔◌, All, ◌≡◌, refl, arith, true, List, [], ◌∷◌, ◌++◌, Option, some, none, length, take, drop,
  get_elem?,
}
use weeper_vm.Machine.{Machine}
use weeper_vm.Operand.{Operand}
use weeper_vm.Emulate.{fresh_context}
use weeper_vm.Emulate.Decode.Header.{compile_header, compile_opcode_r}
use weeper_vm.Invariant.{IsWf}
use weeper_vm.Invariant.Step.{fresh_context-IsWf}
use weeper_vm.Compiler.{
  bit_length_loop, bit_length, byte_length, parse_register, parse_immediate, operand_bytes, pack,
  correct_fallthrough,
}
use weeper_vm.Compiler.Meaning.{Source, reg, imm, parse_operand}
use weeper_vm.Compiler.Insn.{parse_maybe}
use weeper_vm.Compiler.Insn.Runs.{Runs}
use weeper_vm.Compiler.Link.{Item, pack_insn, join, reordering, next_of, link_loop, link}
use weeper_vm.Compiler.Link.Order.{IsPacked, emulate_step-link}
use weeper_vm.Loader.{System, compile_file}
use weeper_vm.Loader.Length.{IsFile}
use weeper_vm.Strings.{proc_self_exe, c_string}
use weeper_vm.Strings.Key.{self_exe, proc_self_exe-key}
use weeper_vm.Tests.{loaded, blank, quiet}

abbrev item : (c old : ℕ) → Option Source → Option Source → Item
item c old a b = record { l = 5; o = 1; c = c; a = a; b = b; old = old }

-- `MOV R3 b0x2c`, `ADD R3 b0x07` and `EXIT R3`
abbrev mov_item : Item
mov_item = item 0 0 (some (reg 1 3)) (some (imm 1 0x2c))

abbrev add_item : Item
add_item = item 4 1 (some (reg 1 3)) (some (imm 1 0x07))

abbrev exit_item : Item
exit_item = item 13 2 (some (reg 1 3)) none

abbrev shuffled : List (List ℕ × ℕ)
shuffled =
    ((42 ∷ 142 ∷ 154 ∷ 3 ∷ 44 ∷ 255 ∷ 255 ∷ 255 ∷ []), 0)
    ∷ ((42 ∷ 136 ∷ 23 ∷ 3 ∷ 255 ∷ 255 ∷ 255 ∷ []), 2)
    ∷ ((42 ∷ 142 ∷ 158 ∷ 3 ∷ 7 ∷ 255 ∷ 255 ∷ 255 ∷ []), 1)
    ∷ []

abbrev linked : List (List ℕ)
linked =
    (42 ∷ 142 ∷ 154 ∷ 3 ∷ 44 ∷ 9 ∷ 38 ∷ 220 ∷ [])
    ∷ (42 ∷ 136 ∷ 23 ∷ 3 ∷ 15 ∷ 0 ∷ 0 ∷ [])
    ∷ (42 ∷ 142 ∷ 158 ∷ 3 ∷ 7 ∷ 14 ∷ 38 ∷ 220 ∷ [])
    ∷ []

abbrev runner : Machine
runner = fresh_context (record loaded { vcode = join linked }) blank

runner-IsWf : IsWf runner
runner-IsWf =
    fresh_context-IsWf (record loaded { vcode = join linked }) blank (omega arith)
      (λ a. omega arith)

shuffled-IsPacked : All IsPacked shuffled
unfolding pack_insn parse_maybe parse_operand parse_register parse_immediate byte_length bit_length
    bit_length_loop pack operand_bytes compile_header compile_opcode_r
shuffled-IsPacked =
    ((mov_item, refl, refl), ((exit_item, refl, refl), ((add_item, refl, refl), tt)))

abbrev places : List ℕ
places = 0 ∷ 2 ∷ 1 ∷ []

-- The MOV at 0 is followed by the ADD, which stands last, at 15.
emulate_step-link_example :
    (get_elem? places 2 ≡ some 1)
    × ((op1 : Operand) × (op2 : Operand) × Runs quiet runner 0 0 15
          (some (reg 1 3))
          (some (imm 1 0x2c))
          op1
          op2)
unfolding pack_insn parse_maybe parse_operand parse_register parse_immediate byte_length bit_length
    bit_length_loop pack operand_bytes compile_header compile_opcode_r correct_fallthrough
    reordering next_of link_loop link
emulate_step-link_example =
    emulate_step-link quiet runner shuffled 23 linked mov_item
      (42 ∷ 142 ∷ 154 ∷ 3 ∷ 44 ∷ 255 ∷ 255 ∷ 255 ∷ []) 0 2 runner-IsWf shuffled-IsPacked refl refl
      (omega arith) (omega arith) (omega arith) (omega arith) (omega arith) refl refl refl

-- `EXIT b0x2c`
abbrev exit_bytes : List ℕ
exit_bytes = 46 ∷ 136 ∷ 23 ∷ 44 ∷ 22 ∷ 38 ∷ 220 ∷ []

abbrev pub own_file : List ℕ
own_file = 0x7f ∷ 0x45 ∷ 0x4c ∷ 0x46 ∷ ((0x02 ∷ 0x01 ∷ []) ++ compile_file exit_bytes 0xdeadbeef)

abbrev pub system : System
system = record {
  sse = true;
  opens = λ path. true;
  size = length own_file;
  read = λ offset count. take count (drop offset own_file);
  has_memory = λ n. true;
  protects = λ n. true;
}

system-IsFile : IsFile system own_file
system-IsFile = record { sse = refl; opens = refl; size = refl; read = λ offset count h. refl }

abbrev self_key : ℕ
self_key = 0x959e8e02

-- Whatever the buffer holds.
proc_self_exe-key_example :
    (c_string 16 (proc_self_exe true (λ i. 7) self_key) 0 ≡ self_exe) ↔ (self_key ≡ 0x959e8e02)
proc_self_exe-key_example = proc_self_exe-key (λ i. 7) self_key (omega arith)
