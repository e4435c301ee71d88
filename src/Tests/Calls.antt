-- ===== src/Tests/Calls.antt =====
-- CALL and RET at a concrete input.
use weeper_vm.Base.{ℕ, ◌≡◌, refl, arith, [], ok, Returns, none, some}
use weeper_vm.Stack.Init.{stack_init-Holds}
use weeper_vm.Stack.Chain.{Holds}
use weeper_vm.Stack.{set_frame, stack_push, frame_at, stack_init, link_frames}
use weeper_vm.Machine.{Machine, update, vcode_at, vmem_at, vmem_set}
use weeper_vm.Memory.{post_v_truncation}
use weeper_vm.Operand.{
  Operand, get_operand_data, get_operand_data_imm, immediate_word, operand_byte, reader_index,
}
use weeper_vm.Handler.Move.{legacy_top, legacy_scan}
use weeper_vm.Handler.Control.{condition, next_address, handle_call, legacy_push}
use weeper_vm.Handler.Control.Calls.{OnlyCalls}
use weeper_vm.Emulate.{call_handler, dispatch}
use weeper_vm.Emulate.Select.{select_handler}
use weeper_vm.Emulate.Calls.{dispatch-ret-call}
use weeper_vm.Tests.{started, started-IsWf, blank, quiet, imm_2c}

abbrev absent : Operand
absent = record { t = 0; v = 0; l = 1; at = 0 }

legacy_top-started : legacy_top started ≡ ok 0x010000
unfolding legacy_top legacy_scan vmem_at
legacy_top-started = refl

-- The state after the CALL.
abbrev called : Machine
called = record started {
  vmem = update (update (update (λ a. 0) 0x010000 0xff) 0x010001 0xff) 0x010002 0xff;
  call_stack = record {
    frames = set_frame (stack_init blank).frames 0 (record { value = 0xffffff; next = none });
    top = some 0;
    free = some 1;
  };
}

call_first : dispatch quiet started 1 11 imm_2c absent ≡ ok (0x2c, called)
unfolding dispatch call_handler select_handler operand_byte vcode_at get_operand_data
    get_operand_data_imm immediate_word reader_index post_v_truncation condition next_address
    handle_call legacy_push legacy_top legacy_scan vmem_at vmem_set stack_push frame_at stack_init
    link_frames
call_first = refl

dispatch-ret-call_example :
    (◌≡◌ {A = ℕ} 0x2c 0x2c)
    × Returns
        (λ (back, m3). (back ≡ 0xffffff) × Holds m3.call_stack [] × OnlyCalls called m3)
        (dispatch quiet called 0x2c 12 absent absent)
unfolding operand_byte vcode_at get_operand_data get_operand_data_imm immediate_word reader_index
    post_v_truncation condition next_address
dispatch-ret-call_example =
    dispatch-ret-call quiet started 1 0x2c imm_2c absent absent absent [] 0x2c 0xffffff 0x010000
      0x2c called called started-IsWf (stack_init-Holds blank) tt (omega arith) (omega arith) refl
      refl refl legacy_top-started (omega arith) call_first refl refl
