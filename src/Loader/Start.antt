-- ===== src/Loader/Start.antt =====
-- VM/WeeperVM.c, `_start`.
pub mod Exit
pub mod Program
use weeper_vm.Base.{ℕ, Option, none, some, [], Run, ok, exited, ◌>>=◌, not, if◌then◌else◌, List}
use weeper_vm.Stack.{Stack, minus_one}
use weeper_vm.Machine.{Machine, vmem_size}
use weeper_vm.Handler.Sys.{Kernel}
use weeper_vm.Emulate.{emulate}
use weeper_vm.Loader.{System, load_vcode}

-- The globals when `emulate` is called: memory as it is mapped, and the virtual code. What
-- `emulate` sets up is not looked at.
abbrev pub with_code : Stack → List ℕ → Machine
with_code blank vcode = record {
  vcode = vcode;
  vmem = λ a. 0;
  vregs = λ r. 0;
  call_stack = blank;
  vflag = 0;
  forks = [];
}

-- The whole program, for at most `rounds` rounds: `none` if the loop has not ended by then.
-- SYS_mmap is 9, and the program's own end is with -1.
unfoldable pub start : System → (ℕ → Kernel) → (rounds : ℕ) → Stack → Run (Option Machine)
start s ks rounds blank = if not (s.has_memory vmem_size) then exited 9 else do
  vcode ← load_vcode s
  ended ← emulate ks rounds (with_code blank vcode) blank 0
  elim ended [ none ↦ ok none | some m ↦ exited minus_one ]
