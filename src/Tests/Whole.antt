-- ===== src/Tests/Whole.antt =====
-- A whole program of three instructions, shuffled, from the compiler to the end of the process.
use mathlib.Core.List.Perm
use weeper_vm.Base.{ℕ, ◌≡◌, refl, arith, true, List, [], ◌∷◌, ◌++◌, exited, length, take, drop}
use weeper_vm.Emulate.Decode.Header.{compile_header, compile_opcode_r}
use weeper_vm.Compiler.{
  bit_length_loop, bit_length, byte_length, parse_register, parse_immediate, operand_bytes, pack,
  correct_fallthrough,
}
use weeper_vm.Compiler.Meaning.{reg, imm, parse_operand}
use weeper_vm.Compiler.Insn.{parse_maybe}
use weeper_vm.Compiler.Insn.Alu.{alu_add, alu_code}
use weeper_vm.Compiler.Link.{pack_insn, join, reordering, next_of, link_loop, link}
use weeper_vm.Compiler.Program.{Line, move, compute, zip_packed}
use weeper_vm.Loader.{System, compile_file}
use weeper_vm.Loader.Length.{IsFile}
use weeper_vm.Loader.Start.{start}
use weeper_vm.Loader.Start.Program.{start-run_lines}
use weeper_vm.Tests.{blank, quiet}

-- `MOV R3 b0x2c`, `ADD R3 b0x07` and `EXIT R3`
abbrev lines : List Line
lines =
    record { act = move; v = 1; r = 3; s = imm 1 0x2c }
    ∷ record { act = compute alu_add; v = 1; r = 3; s = imm 1 0x07 }
    ∷ []

abbrev mov_packed : List ℕ
mov_packed = 42 ∷ 142 ∷ 154 ∷ 3 ∷ 44 ∷ 255 ∷ 255 ∷ 255 ∷ []

abbrev add_packed : List ℕ
add_packed = 42 ∷ 142 ∷ 158 ∷ 3 ∷ 7 ∷ 255 ∷ 255 ∷ 255 ∷ []

abbrev exit_packed : List ℕ
exit_packed = 42 ∷ 136 ∷ 23 ∷ 3 ∷ 255 ∷ 255 ∷ 255 ∷ []

abbrev in_order : List (List ℕ × ℕ)
in_order = (mov_packed, 0) ∷ (add_packed, 1) ∷ (exit_packed, 2) ∷ []

abbrev shuffled : List (List ℕ × ℕ)
shuffled = (mov_packed, 0) ∷ (exit_packed, 2) ∷ (add_packed, 1) ∷ []

abbrev linked : List (List ℕ)
linked =
    (42 ∷ 142 ∷ 154 ∷ 3 ∷ 44 ∷ 9 ∷ 38 ∷ 220 ∷ [])
    ∷ (42 ∷ 136 ∷ 23 ∷ 3 ∷ 15 ∷ 0 ∷ 0 ∷ [])
    ∷ (42 ∷ 142 ∷ 158 ∷ 3 ∷ 7 ∷ 14 ∷ 38 ∷ 220 ∷ [])
    ∷ []

abbrev own_file : List ℕ
own_file = 0x7f ∷ 0x45 ∷ 0x4c ∷ 0x46 ∷ ((0x02 ∷ 0x01 ∷ []) ++ compile_file (join linked) 0xdeadbeef)

abbrev system : System
system = record {
  sse = true;
  opens = λ path. true;
  size = length own_file;
  read = λ offset count. take count (drop offset own_file);
  has_memory = λ n. true;
  protects = λ n. true;
}

system-IsFile : IsFile system own_file
system-IsFile = record { sse = refl; opens = refl; size = refl; read = λ offset count h. refl }

-- 0x2c and 0x07 are 0x33.
start-run_lines_example : start system (λ i. quiet) 3 blank ≡ exited 0x33
unfolding pack_insn parse_maybe parse_operand parse_register parse_immediate byte_length bit_length
    bit_length_loop pack operand_bytes compile_header compile_opcode_r correct_fallthrough
    reordering next_of link_loop link zip_packed alu_code
start-run_lines_example =
    start-run_lines system (λ i. quiet) blank (0x02 ∷ 0x01 ∷ []) (λ j. 5) (λ j. 1) lines (reg 1 3)
      in_order shuffled 23 linked 0xdeadbeef 3 (λ j. omega arith) (λ j. omega arith) (omega arith)
      (omega arith) refl (refl, Perm.swap _ _ []) refl (omega arith) (omega arith) system-IsFile
      (omega arith) refl refl refl (omega arith)
