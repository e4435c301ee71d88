-- ===== src/Tests/Compile.antt =====
-- The compiled form of an operand and of an instruction, and what the machine makes of them.
use weeper_vm.Base.{ℕ, ap, get_elem?, ◌≡◌, refl, arith, List, [], ◌∷◌, some, ok}
use weeper_vm.Machine.{Machine}
use weeper_vm.Operand.{Operand, get_operand_data}
use weeper_vm.Emulate.{fresh_context}
use weeper_vm.Emulate.Decode.Header.{operand_of, compile_header, compile_opcode_r}
use weeper_vm.Invariant.{IsWf}
use weeper_vm.Invariant.Step.{fresh_context-IsWf}
use weeper_vm.Compiler.{
  Parsed, bit_length_loop, bit_length, byte_length, parse_register, parse_immediate,
  immediate_memory, compound_memory, spoofed, parse_memory, operand_bytes, spec_of, pack,
  correct_fallthrough,
}
use weeper_vm.Compiler.Meaning.{Source, reg, imm, mem_disp, parse_operand}
use weeper_vm.Compiler.Meaning.Operands.{get_operand_data-parse_operand}
use weeper_vm.Compiler.Insn.{parse_maybe, compile_insn}
use weeper_vm.Compiler.Insn.Runs.{Runs, emulate_step-compile_insn}
use weeper_vm.Compiler.Insn.Alu.{alu_add, alu_code, emulate_step-alu}
use weeper_vm.Handler.Arith.Bitwise.{with_low}
use weeper_vm.Emulate.{emulate_step}
use weeper_vm.Tests.{loaded, blank, quiet}

-- `ADD R3 b0x2c`, with 5 and 1 drawn and 0x123 behind it.
abbrev add_bytes : List ℕ
add_bytes = 42 ∷ 142 ∷ 158 ∷ 3 ∷ 44 ∷ 37 ∷ 39 ∷ 220 ∷ []

abbrev adder : Machine
adder = fresh_context (record loaded { vcode = add_bytes }) blank

adder-IsWf : IsWf adder
adder-IsWf =
    fresh_context-IsWf (record loaded { vcode = add_bytes }) blank (omega arith) (λ a. omega arith)

emulate_step-compile_insn_example :
    (op1 : Operand) × (op2 : Operand) × Runs quiet adder 0 4 0x123
      (some (reg 1 3))
      (some (imm 1 0x2c))
      op1
      op2
unfolding compile_insn parse_maybe parse_operand parse_register parse_immediate byte_length
    bit_length bit_length_loop pack operand_bytes correct_fallthrough compile_header
    compile_opcode_r
emulate_step-compile_insn_example =
    emulate_step-compile_insn quiet adder 0 5 1 4 0x123 (some (reg 1 3)) (some (imm 1 0x2c))
      add_bytes adder-IsWf (omega arith) (omega arith) (omega arith) (omega arith) (omega arith)
      refl (omega arith) (λ i h. ap (λ (n : ℕ). get_elem? adder.vcode n) (omega arith))

-- `[R1+b0x20]` at the size of an int.
abbrev at_r1 : Source
at_r1 = mem_disp 3 3 1 1 0x20

abbrev at_r1_parsed : Parsed
at_r1_parsed = record { t = 2; v = 3; l = 1; x = 0xb120 }

abbrev reader : Machine
reader = fresh_context (record loaded { vcode = 0xb1 ∷ 0x20 ∷ 0 ∷ []; vmem = λ a. 7 }) blank

reader-IsWf : IsWf reader
reader-IsWf =
    fresh_context-IsWf (record loaded { vcode = 0xb1 ∷ 0x20 ∷ 0 ∷ []; vmem = λ a. 7 }) blank
      (omega arith) (λ a. omega arith)

get_operand_data-parse_operand_example :
    get_operand_data reader 0x37 (operand_of (spec_of at_r1_parsed) 0) ≡ ok 0x07070707
unfolding parse_operand parse_register parse_immediate immediate_memory compound_memory spoofed
    parse_memory byte_length bit_length bit_length_loop operand_bytes
get_operand_data-parse_operand_example =
    get_operand_data-parse_operand reader 0x37 0 0 [] at_r1 at_r1_parsed (0xb1 ∷ 0x20 ∷ [])
      reader-IsWf (omega arith) refl refl (omega arith)
      (λ i h. ap (λ (n : ℕ). get_elem? reader.vcode n) (omega arith))

-- R3 is 0 at the start, and 0x2c is added to its low byte.
emulate_step-alu_example : emulate_step quiet adder 0 ≡ ok (0x123, with_low adder 1 3 0x2c)
unfolding compile_insn parse_maybe parse_operand parse_register parse_immediate byte_length
    bit_length bit_length_loop pack operand_bytes correct_fallthrough compile_header
    compile_opcode_r alu_code
emulate_step-alu_example =
    emulate_step-alu quiet adder 0 5 1 0x123 1 3 0x2c alu_add (imm 1 0x2c) add_bytes adder-IsWf
      (omega arith) (omega arith) (omega arith) (omega arith) (omega arith) refl (omega arith)
      (λ i h. ap (λ (n : ℕ). get_elem? adder.vcode n) (omega arith)) refl
