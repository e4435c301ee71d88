-- ===== src/Tests.antt =====
-- A machine on which the theorems are tried, and the runs on it.
mod Parts
mod Run
mod Reads
mod Calls
mod Load
mod Moves
mod Compile
mod Program
mod Whole
mod Serve
mod Meet
mod Threads
mod Bits
use weeper_vm.Base.{ℕ, List, [], ◌∷◌, none, some, ok, arith, true}
use weeper_vm.Stack.{Stack}
use weeper_vm.Machine.{Machine}
use weeper_vm.Operand.{Operand}
use weeper_vm.Handler.Sys.{Kernel}
use weeper_vm.Emulate.{fresh_context}
use weeper_vm.Invariant.{IsWf}
use weeper_vm.Invariant.Step.{fresh_context-IsWf}

-- `MOV` of the byte 0x2c to register 3, and 0xffffff as the next instruction.
abbrev pub mov_code : List ℕ
mov_code = 0x03 ∷ 0x86 ∷ 0x80 ∷ 0x03 ∷ 0x2c ∷ 0xf9 ∷ 0xd9 ∷ 0x23 ∷ []

abbrev pub blank : Stack
blank = record { frames = λ i. record { value = 0; next = none }; top = none; free = none }

abbrev pub loaded : Machine
loaded = record {
  vcode = mov_code;
  vmem = λ a. 0;
  vregs = λ r. 0;
  call_stack = blank;
  vflag = 0;
  forks = [];
}

abbrev pub started : Machine
started = fresh_context loaded blank

pub started-IsWf : IsWf started
started-IsWf = fresh_context-IsWf loaded blank (omega arith) (λ a. omega arith)

-- A kernel whose calls do nothing and return 0.
abbrev pub quiet : Kernel
quiet = record {
  vmem_base = 0x10000000;
  call = λ r mem. ok (0, mem);
  map_stack = λ mem. some 0x70000000;
  has_thread = λ ca mem. true;
  is_private = λ stack size. true;
}

-- Register 3 at the size of a byte, and immediates of one byte, from the bytes of `mov_code`.
abbrev pub reg_3 : Operand
reg_3 = record { t = 1; v = 1; l = 1; at = 3 }

abbrev pub imm_2c : Operand
imm_2c = record { t = 3; v = 1; l = 1; at = 4 }

abbrev pub imm_03 : Operand
imm_03 = record { t = 3; v = 1; l = 1; at = 0 }
