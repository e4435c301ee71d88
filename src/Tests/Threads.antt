-- ===== src/Tests/Threads.antt =====
-- A FORK in a process, and what a round changes.
use weeper_vm.Base.{ℕ, ◌≡◌, refl, arith, List, [], ◌∷◌, ok}
use weeper_vm.Machine.{Bytes, vcode_at}
use weeper_vm.Memory.{post_v_truncation}
use weeper_vm.Operand.{
  operand_byte, get_operand_data, get_operand_data_imm, immediate_word, reader_index,
}
use weeper_vm.Handler.Control.{condition, next_address}
use weeper_vm.Handler.Sys.{mapped_stack, handle_fork}
use weeper_vm.Invariant.Step.{KeepsBytes}
use weeper_vm.Emulate.{call_handler, dispatch, emulate_step}
use weeper_vm.Emulate.Select.{woc_mov, select_handler}
use weeper_vm.Emulate.Decode.{fetch, parse_header, decode, decode_opcode}
use weeper_vm.Invariant.Frame.Step.{Touches, dispatch-Frame}
use weeper_vm.Threads.{
  Context, Round, runs_at, Process, advance, run_round, spawned, round, Reaches, now, next, initial,
}
use weeper_vm.Threads.Invariant.{AllWf, Reaches-IsWf}
use weeper_vm.Tests.{started, blank, quiet, reg_3, imm_2c}
use weeper_vm.Tests.Run.{quiet-KeepsBytes}

-- `FORK b0`, and 8 as the next instruction.
abbrev fork_code : List ℕ
fork_code = 46 ∷ 136 ∷ 1 ∷ 0 ∷ 14 ∷ 38 ∷ 220 ∷ []

abbrev zeros : Bytes
zeros = λ a. 0

-- The first thread behind the FORK.
abbrev parent : Context
parent = record (spawned blank 0) { place = runs_at 8 }

abbrev left : Round
left = record { vmem = zeros; context = parent; started = spawned blank 0 ∷ [] }

abbrev forked : Process
forked = record { vcode = fork_code; vmem = zeros; threads = parent ∷ spawned blank 0 ∷ [] }

fork_round : run_round quiet blank fork_code zeros (spawned blank 0) 0 ≡ ok left
unfolding run_round advance emulate_step fetch parse_header decode decode_opcode dispatch
    call_handler select_handler handle_fork condition operand_byte vcode_at get_operand_data
    get_operand_data_imm immediate_word reader_index post_v_truncation next_address mapped_stack
fork_round = refl

forked_reached : Reaches KeepsBytes blank (initial blank fork_code) forked
forked_reached =
    next now
      (round [] (spawned blank 0) [] 0 left quiet quiet-KeepsBytes ((λ e. cc), tt) refl fork_round)

Reaches-IsWf_example : (forked.vcode ≡ fork_code) × AllWf forked.vcode forked.vmem forked.threads
Reaches-IsWf_example =
    Reaches-IsWf KeepsBytes blank fork_code forked (λ k kb. kb) (omega arith) forked_reached

-- MOV to a register.
dispatch-Frame_example : Touches woc_mov reg_3 started (dispatch quiet started 0 0 reg_3 imm_2c)
unfolding select_handler
dispatch-Frame_example = dispatch-Frame quiet started 0 0 reg_3 imm_2c
