-- ===== src/Tests/Reads.antt =====
-- A run in which the same READ gives other bytes.
use weeper_vm.Base.{ℕ, ◌-◌, ◌<◌, ◌≡◌, refl, arith, List, [], ◌∷◌, ok, returns}
use weeper_vm.Machine.{Machine, update, vcode_at, vreg_at, vreg_set}
use weeper_vm.Memory.{post_v_truncation, pre_v_truncation}
use weeper_vm.Operand.{
  get_operand_data, reader_index, operand_byte, get_operand_data_imm, immediate_word,
}
use weeper_vm.Handler.Write.{write_back, write_reg}
use weeper_vm.Handler.Move.{handle_mov}
use weeper_vm.Handler.Control.{next_address}
use weeper_vm.Handler.Sys.{
  Kernel, time_request, file_request, notify_request, make_request, handle_syscall,
}
use weeper_vm.Emulate.{fresh_context, call_handler, dispatch, emulate_step}
use weeper_vm.Emulate.Select.{select_handler}
use weeper_vm.Emulate.Decode.{fetch, parse_header, decode, decode_opcode}
use weeper_vm.Invariant.{IsWf}
use weeper_vm.Invariant.Step.{KeepsBytes, here, round, emulate-IsWf}
use weeper_vm.Tests.{loaded, blank, quiet}
use weeper_vm.Tests.Run.{quiet-KeepsBytes}

-- `MOV F2 b1`, and at 8 `SYSCALL b0x21`, a READ of one byte to the start of `vmem`, with itself as
-- the next instruction.
abbrev read_code : List ℕ
read_code = 42 ∷ 134 ∷ 133 ∷ 12 ∷ 1 ∷ 14 ∷ 38 ∷ 220 ∷ 46 ∷ 128 ∷ 17 ∷ 33 ∷ 14 ∷ 38 ∷ 220 ∷ []

abbrev reader : Machine
reader = record loaded { vcode = read_code }

-- A READ of one byte gives `x`.
abbrev gives : ℕ → Kernel
gives x = record quiet { call = λ r mem. ok (1, update mem (r.a1 - 0x10000000) x) }

gives-KeepsBytes : (x : ℕ) → x < 256 → KeepsBytes (gives x)
gives-KeepsBytes x h r mem hm = returns (λ a. ground (arith, hm a))

abbrev counted : Machine
counted = record (fresh_context reader blank) {
  vregs = update (fresh_context reader blank).vregs 12 1;
}

-- Behind a READ that has given `x`.
abbrev after_read : Machine → ℕ → Machine
after_read m x = record m { vmem = update m.vmem 0 x; vregs = update m.vregs 4 1 }

count_round : emulate_step quiet (fresh_context reader blank) 0 ≡ ok (8, counted)
unfolding emulate_step fetch parse_header decode decode_opcode dispatch call_handler select_handler
    handle_mov write_reg operand_byte vcode_at get_operand_data get_operand_data_imm immediate_word
    reader_index post_v_truncation pre_v_truncation vreg_at vreg_set next_address write_back
count_round = refl

read_round : (x : ℕ) → emulate_step (gives x) counted 8 ≡ ok (8, after_read counted x)
unfolding emulate_step fetch parse_header decode decode_opcode dispatch call_handler select_handler
    handle_syscall make_request time_request file_request notify_request operand_byte vcode_at
    get_operand_data get_operand_data_imm immediate_word reader_index post_v_truncation vreg_at
    vreg_set next_address
read_round x = refl

read_again :
    (x y : ℕ)
    → emulate_step (gives y) (after_read counted x) 8 ≡ ok (8, after_read (after_read counted x) y)
unfolding emulate_step fetch parse_header decode decode_opcode dispatch call_handler select_handler
    handle_syscall make_request time_request file_request notify_request operand_byte vcode_at
    get_operand_data get_operand_data_imm immediate_word reader_index post_v_truncation vreg_at
    vreg_set next_address
read_again x y = refl

-- A zero, which leaves the bytes of memory as they were, and then a line feed.
emulate-IsWf_example : IsWf (after_read (after_read counted 0) 10)
emulate-IsWf_example =
    emulate-IsWf KeepsBytes (λ k kb. kb) reader blank 0 (omega arith) (λ a. omega arith)
      (8, after_read (after_read counted 0) 10)
      (round (gives 10)
        (round (gives 0) (round quiet here quiet-KeepsBytes count_round)
          (gives-KeepsBytes 0 (omega arith)) (read_round 0))
        (gives-KeepsBytes 10 (omega arith)) (read_again 0 10))
