-- ===== src/Tests/Bits.antt =====
-- The bitwise instructions, the shifts and the rotations, and the system calls, at concrete inputs.
use weeper_vm.Base.{ℕ, ◌<◌, ◌≡◌, refl, arith, ok, undefined, ◌>>=◌}
use weeper_vm.Memory.{post_v_truncation}
use weeper_vm.Operand.{
  calculate_memory_offset, immediate_offset, immediate_disp, get_operand_data, get_operand_data_imm,
  immediate_word, operand_byte, reader_index,
}
use weeper_vm.Handler.Arith.{
  handle_and, handle_or, handle_xor, handle_not, handle_shl, handle_shr, handle_div, handle_mod,
}
use weeper_vm.Handler.Arith.Bitwise.{with_low, bitwise-in_width}
use weeper_vm.Handler.Arith.Shift.{shift-divide}
use weeper_vm.Handler.Special.{rotate_left, rotate_right, rev_rounds, bit_width, by_size}
use weeper_vm.Handler.Special.Rotate.{rotate_right-left}
use weeper_vm.Handler.Special.Rev.{reversed, rev_rounds-twice}
use weeper_vm.Handler.Sys.{request, make_request}
use weeper_vm.Handler.Sys.Numbers.{Syscall, IsRequest, IsOther, number, make_request-number}
use weeper_vm.Handler.Arith.Memory.{with_bytes}
use weeper_vm.Handler.Arith.BitMemory.{bitwise-in_memory}
use weeper_vm.Handler.Arith.DivMemory.{divide-in_memory}
use weeper_vm.Machine.{Machine, vcode_at}
use weeper_vm.Invariant.{IsWf}
use weeper_vm.Tests.{started, started-IsWf, reg_3, imm_2c}
use weeper_vm.Tests.Moves.{mem_2c}
use weeper_vm.Tests.Run.{at_limit, at_limit-IsWf}

-- 0xff and 0x2c.
bitwise-in_width_example :
    (handle_and at_limit reg_3 imm_2c ≡ ok (with_low at_limit 1 3 0x2c))
    × (handle_or at_limit reg_3 imm_2c ≡ ok (with_low at_limit 1 3 0xff))
    × (handle_xor at_limit reg_3 imm_2c ≡ ok (with_low at_limit 1 3 0xd3))
    × (handle_not at_limit reg_3 imm_2c ≡ ok (with_low at_limit 1 3 0xd3))
unfolding operand_byte vcode_at get_operand_data get_operand_data_imm immediate_word reader_index
    post_v_truncation
bitwise-in_width_example =
    bitwise-in_width at_limit reg_3 imm_2c 3 0x2c 0x2c 0x2c 0x2c at_limit-IsWf refl (omega arith)
      refl refl refl refl refl

-- 0x1ff by 0x2c, which is more than 31.
shift-divide_example :
    (handle_shl at_limit reg_3 imm_2c ≡ undefined)
    × (handle_shr at_limit reg_3 imm_2c ≡ undefined)
    × (handle_div at_limit reg_3 imm_2c ≡ ok (with_low at_limit 1 3 11))
    × (handle_mod at_limit reg_3 imm_2c ≡ ok (with_low at_limit 1 3 27))
unfolding operand_byte vcode_at get_operand_data get_operand_data_imm immediate_word reader_index
    post_v_truncation
shift-divide_example =
    shift-divide at_limit reg_3 imm_2c 3 0x2c 0x2c 0x2c 0x2c at_limit-IsWf refl (omega arith) refl
      refl refl refl refl

abbrev word : ℕ
word = 0x12345678

abbrev places : ℕ
places = 12

rotate_right-left_example :
    (0 < places
      → ((rotate_left 32 word places >>= λ y. rotate_right 32 y places) ≡ ok word)
        × ((rotate_right 32 word places >>= λ y. rotate_left 32 y places) ≡ ok word))
    × (places ≡ 0
        → (rotate_left 32 word places ≡ undefined) × (rotate_right 32 word places ≡ undefined))
rotate_right-left_example = rotate_right-left word places (omega arith) (omega arith)

rev_rounds-twice_example :
    (rev_rounds (bit_width 1) 0x13 0 ≡ reversed 8 0x13)
    × (rev_rounds (bit_width 1) (rev_rounds (bit_width 1) 0x13 0) 0 ≡ 0x13)
unfolding bit_width by_size
rev_rounds-twice_example = rev_rounds-twice 1 0x13 (omega arith) (omega arith)

make_request-number_example :
    ((s : Syscall) → IsRequest s 0x1000 1 2 3 4 (make_request 0x1000 1 2 3 4 (number s)))
    × ((code : ℕ) → IsOther code → make_request 0x1000 1 2 3 4 code ≡ request code 1 2 3 4)
make_request-number_example = make_request-number 0x1000 1 2 3 4

-- The byte at 0x2c is 0: AND gives 0, OR and XOR give 0x2c, and the shifts by 0 give the source.
bitwise-in_memory_example :
    (handle_and started mem_2c imm_2c ≡ ok (with_bytes started 1 0x2c 0))
    × (handle_or started mem_2c imm_2c ≡ ok (with_bytes started 1 0x2c 0x2c))
    × (handle_xor started mem_2c imm_2c ≡ ok (with_bytes started 1 0x2c 0x2c))
    × (handle_shl started mem_2c imm_2c ≡ ok (with_bytes started 1 0x2c 0x2c))
    × (handle_shr started mem_2c imm_2c ≡ ok (with_bytes started 1 0x2c 0x2c))
unfolding operand_byte vcode_at get_operand_data get_operand_data_imm immediate_word reader_index
    post_v_truncation calculate_memory_offset immediate_offset immediate_disp
bitwise-in_memory_example =
    bitwise-in_memory started mem_2c imm_2c 0x2c 0x2c 0x2c 0x2c 0x2c 0x2c started-IsWf refl
      (omega arith) refl (omega arith) refl refl refl refl refl

-- Memory of hundreds: 100 by 44, and the complement of 44.
abbrev hundreds : Machine
hundreds = record started { vmem = λ a. 100 }

hundreds-IsWf : IsWf hundreds
hundreds-IsWf = record {
  code_bytes = started-IsWf.code_bytes;
  mem_bytes = λ a. omega arith;
  reg_words = started-IsWf.reg_words;
  flag = started-IsWf.flag;
  calls = started-IsWf.calls;
}

divide-in_memory_example :
    (handle_div hundreds mem_2c imm_2c ≡ ok (with_bytes hundreds 1 0x2c 2))
    × (handle_mod hundreds mem_2c imm_2c ≡ ok (with_bytes hundreds 1 0x2c 12))
    × (handle_not hundreds mem_2c imm_2c ≡ ok (with_bytes hundreds 1 0x2c 0xd3))
unfolding operand_byte vcode_at get_operand_data get_operand_data_imm immediate_word reader_index
    post_v_truncation calculate_memory_offset immediate_offset immediate_disp
divide-in_memory_example =
    divide-in_memory hundreds mem_2c imm_2c 0x2c 0x2c 0x2c 0x2c hundreds-IsWf refl (omega arith)
      refl (omega arith) refl refl refl
