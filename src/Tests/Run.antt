-- ===== src/Tests/Run.antt =====
-- The theorems on the handlers and on a whole run, each at a concrete input.
use weeper_vm.Base.{ℕ, ◌+◌, ◌≡◌, ◌≤◌, ◌<◌, ◌⊎◌, refl, arith, [], ok, returns}
use weeper_vm.Stack.Init.{stack_init-Holds}
use weeper_vm.Machine.{Machine, update, vcode_at, vreg_at, vreg_set}
use weeper_vm.Operand.{
  get_operand_data, reader_index, operand_byte, get_operand_data_imm, immediate_word,
}
use weeper_vm.Memory.{post_v_truncation, pre_v_truncation}
use weeper_vm.Memory.Store.{put_bytes}
use weeper_vm.Handler.Write.{write_back, write_reg}
use weeper_vm.Handler.Move.{handle_mov, handle_put, handle_get}
use weeper_vm.Handler.Move.Locals.{local_address, handle_put-store, handle_get-put}
use weeper_vm.Handler.Arith.{handle_add, handle_sub, handle_mul}
use weeper_vm.Handler.Arith.Reg.{alu-in_width}
use weeper_vm.Handler.Control.{handle_cmp, next_address}
use weeper_vm.Handler.Control.Flags.{lte, flag_of}
use weeper_vm.Emulate.{emulate_step, dispatch, call_handler}
use weeper_vm.Emulate.Select.{select_handler}
use weeper_vm.Emulate.Decode.{fetch, parse_header, decode, decode_opcode}
use weeper_vm.Emulate.Jump.{dispatch-jmp-cmp}
use weeper_vm.Invariant.{IsWf}
use weeper_vm.Invariant.Step.{KeepsBytes}
use weeper_vm.Tests.{started, started-IsWf, blank, quiet, reg_3, imm_2c, imm_03}

-- Register 3 holds 0x1ff, and its low byte is at the limit.
abbrev pub at_limit : Machine
at_limit = record started { vregs = update (λ r. 0) 3 0x1ff }

pub at_limit-IsWf : IsWf at_limit
at_limit-IsWf = record {
  code_bytes = started-IsWf.code_bytes;
  mem_bytes = started-IsWf.mem_bytes;
  reg_words = λ r. ground arith;
  flag = started-IsWf.flag;
  calls = started-IsWf.calls;
}

-- 0xff + 0x2c = 0x2b, 0xff - 0x2c = 0xd3 and 0xff * 0x2c = 0xd4 modulo 0x100.
alu-in_width_example :
    (handle_add at_limit reg_3 imm_2c
      ≡ ok (record started { vregs = update at_limit.vregs 3 0x12b }))
    × (handle_sub at_limit reg_3 imm_2c
        ≡ ok (record started { vregs = update at_limit.vregs 3 0x1d3 }))
    × (handle_mul at_limit reg_3 imm_2c
        ≡ ok (record started { vregs = update at_limit.vregs 3 0x1d4 }))
unfolding operand_byte vcode_at get_operand_data get_operand_data_imm immediate_word reader_index
    post_v_truncation
alu-in_width_example =
    alu-in_width at_limit reg_3 imm_2c 3 0x2c 0x2c 0x2c at_limit-IsWf refl (omega arith) refl refl
      refl refl

-- The condition is the byte 3, EQ or LT.
dispatch-jmp-cmp_example :
    (handle_cmp started imm_03 imm_2c ≡ ok (record started { vflag = 2 }))
    × (dispatch quiet (record started { vflag = 2 }) 0 10 imm_2c imm_03
        ≡ ok (0x2c, record started { vflag = 2 }))
unfolding operand_byte vcode_at get_operand_data get_operand_data_imm immediate_word reader_index
    post_v_truncation flag_of
dispatch-jmp-cmp_example =
    dispatch-jmp-cmp quiet started imm_03 imm_2c 3 0x2c 0 imm_2c imm_03 0x2c lte started-IsWf refl
      refl (omega arith) (omega arith) refl refl

-- At the top level the variable 3 lies at its hash with 0.
handle_put-store_example :
    (let a = local_address [] 3 in
      let mem = put_bytes 1 started.vmem a 0x2c in
      (handle_put started imm_03 imm_2c ≡ ok (record started { vmem = mem }))
      × ((j : ℕ) → (j < a) ⊎ (a + 1 ≤ j) → mem j ≡ 0)
      × ((j : ℕ) → 0x10003 ≤ j → mem j ≡ 0))
unfolding operand_byte vcode_at get_operand_data get_operand_data_imm immediate_word reader_index
    post_v_truncation
handle_put-store_example =
    handle_put-store started imm_03 imm_2c [] 3 0x2c (stack_init-Holds blank) (omega arith) refl
      refl

-- The state that it leaves.
abbrev stored : Machine
stored = record started { vmem = put_bytes 1 started.vmem (local_address [] 3) 0x2c }

put_first : handle_put started imm_03 imm_2c ≡ ok stored
unfolding operand_byte vcode_at get_operand_data get_operand_data_imm immediate_word reader_index
    post_v_truncation
put_first =
    (handle_put-store started imm_03 imm_2c [] 3 0x2c (stack_init-Holds blank) (omega arith) refl
      refl).0

handle_get-put_example : handle_get stored reg_3 imm_03 ≡ write_back stored reg_3 1 1 0x2c 0x9a
unfolding operand_byte vcode_at get_operand_data get_operand_data_imm immediate_word reader_index
    post_v_truncation
handle_get-put_example =
    handle_get-put started imm_03 imm_2c reg_3 imm_03 [] 3 0x2c (λ a. omega arith)
      (stack_init-Holds blank) (omega arith) refl refl refl put_first refl

-- The state after the first round.
abbrev pub moved : Machine
moved = record started { vregs = update started.vregs 3 0x2c }

first_round : emulate_step quiet started 0 ≡ ok (0xffffff, moved)
unfolding emulate_step fetch parse_header decode decode_opcode dispatch call_handler select_handler
    handle_mov write_reg operand_byte vcode_at get_operand_data get_operand_data_imm immediate_word
    reader_index post_v_truncation pre_v_truncation vreg_at vreg_set next_address write_back
first_round = refl

pub quiet-KeepsBytes : KeepsBytes quiet
quiet-KeepsBytes r mem h = returns h
