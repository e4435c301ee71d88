-- ===== src/Tests/Moves.antt =====
-- MOV, the arithmetic on memory, and SWAP at concrete inputs.
use weeper_vm.Base.{Ensures, ◌≡◌, refl, arith, ok}
use weeper_vm.Machine.{Machine, vcode_at, update}
use weeper_vm.Memory.{post_v_truncation}
use weeper_vm.Memory.Store.{put_bytes}
use weeper_vm.Operand.{
  Operand, calculate_memory_offset, immediate_offset, immediate_disp, get_operand_data,
  get_operand_data_imm, immediate_word, operand_byte, reader_index,
}
use weeper_vm.Handler.Move.{handle_mov, handle_lea}
use weeper_vm.Handler.Move.Mov.{handle_mov-reg, handle_mov-mem, handle_lea-byte}
use weeper_vm.Handler.Arith.{handle_add, handle_sub, handle_mul}
use weeper_vm.Handler.Arith.Memory.{with_bytes, alu-in_memory}
use weeper_vm.Handler.Special.Swap.{HalvesMove, swap_halves-pack}
use weeper_vm.Invariant.{IsWf}
use weeper_vm.Invariant.Bounds.{FitsSize, get_operand_data-FitsSize}
use weeper_vm.Tests.{started, started-IsWf, reg_3, imm_2c}

-- The byte at 0x2c.
abbrev pub mem_2c : Operand
mem_2c = record { t = 2; v = 1; l = 2; at = 3 }

handle_mov-reg_example :
    handle_mov started reg_3 imm_2c ≡ ok (record started { vregs = update (λ r. 0) 3 0x2c })
unfolding operand_byte vcode_at get_operand_data get_operand_data_imm immediate_word reader_index
    post_v_truncation
handle_mov-reg_example =
    handle_mov-reg started reg_3 imm_2c 3 0x2c started-IsWf refl (omega arith) refl refl
      (omega arith)

handle_mov-mem_example :
    handle_mov started mem_2c imm_2c ≡ ok (record started { vmem = put_bytes 1 (λ a. 0) 0x2c 0x2c })
unfolding operand_byte vcode_at get_operand_data get_operand_data_imm immediate_word reader_index
    post_v_truncation calculate_memory_offset immediate_offset immediate_disp
handle_mov-mem_example =
    handle_mov-mem started mem_2c imm_2c 0x2c 0x2c started-IsWf refl (omega arith) refl
      (omega arith) refl

alu-in_memory_example :
    (handle_add started mem_2c imm_2c ≡ ok (with_bytes started 1 0x2c 0x2c))
    × (handle_sub started mem_2c imm_2c ≡ ok (with_bytes started 1 0x2c 0xd4))
    × (handle_mul started mem_2c imm_2c ≡ ok (with_bytes started 1 0x2c 0))
unfolding operand_byte vcode_at get_operand_data get_operand_data_imm immediate_word reader_index
    post_v_truncation calculate_memory_offset immediate_offset immediate_disp
alu-in_memory_example =
    alu-in_memory started mem_2c imm_2c 0x2c 0x2c 0x2c 0x2c started-IsWf refl (omega arith) refl
      (omega arith) refl refl refl

swap_halves-pack_example : HalvesMove 2 0x1234 0xabcd
swap_halves-pack_example =
    swap_halves-pack 2 0x1234 0xabcd (omega arith) (omega arith) (omega arith)

-- Register 3 as an int, whose value 0x2c is the address of a short.
abbrev int_3 : Operand
int_3 = record { t = 1; v = 3; l = 1; at = 3 }

abbrev short_at_2c : Operand
short_at_2c = record { t = 3; v = 2; l = 1; at = 4 }

abbrev filled : Machine
filled = record started { vmem = λ a. 0xab }

filled-IsWf : IsWf filled
filled-IsWf = record {
  code_bytes = started-IsWf.code_bytes;
  mem_bytes = λ a. omega arith;
  reg_words = started-IsWf.reg_words;
  flag = started-IsWf.flag;
  calls = started-IsWf.calls;
}

handle_lea-byte_example :
    handle_lea filled int_3 short_at_2c ≡ ok (record filled { vregs = update (λ r. 0) 3 0xab })
unfolding operand_byte vcode_at get_operand_data get_operand_data_imm immediate_word reader_index
    post_v_truncation
handle_lea-byte_example =
    handle_lea-byte filled int_3 short_at_2c 3 0x2c filled-IsWf refl (omega arith) refl
      (omega arith) refl (omega arith)

get_operand_data-FitsSize_example : Ensures (FitsSize 1) (get_operand_data started 0x37 imm_2c)
get_operand_data-FitsSize_example =
    get_operand_data-FitsSize started-IsWf 0x37 imm_2c (omega arith) (omega arith)
