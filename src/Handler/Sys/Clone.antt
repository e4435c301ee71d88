-- ===== src/Handler/Sys/Clone.antt =====
-- VM/lib/syscall.h, `struct clone_args`, and how `handle_fork` of VM/src/emulate.c fills it.
use weeper_vm.Base.{ℕ, ◌+◌, ◌-◌, ◌<◌, ◌≤◌, arith, bit_or}

pub record CloneArgs : Type 0 where
  pub flags : ℕ
  pub pidfd : ℕ
  pub child_tid : ℕ
  pub parent_tid : ℕ
  pub exit_signal : ℕ
  pub stack : ℕ
  pub stack_size : ℕ
  pub tls : ℕ
  pub set_tid : ℕ
  pub set_tid_size : ℕ
  pub cgroup : ℕ

-- CLONE_VM to CLONE_SYSVSEM
pub data CloneFlag : Type 0 where
  clone_vm clone_fs clone_files clone_sighand clone_thread clone_sysvsem : CloneFlag

unfoldable pub clone_flag : CloneFlag → ℕ
clone_flag clone_vm = 0x00000100
clone_flag clone_fs = 0x00000200
clone_flag clone_files = 0x00000400
clone_flag clone_sighand = 0x00000800
clone_flag clone_thread = 0x00010000
clone_flag clone_sysvsem = 0x00040000

-- `ca`, for the memory that is mapped at `stack`.
unfoldable pub fork_args : ℕ → CloneArgs
fork_args stack = record {
  flags =
      bit_or
        (bit_or
          (bit_or
            (bit_or (bit_or (clone_flag clone_vm) (clone_flag clone_fs)) (clone_flag clone_files))
            (clone_flag clone_sighand))
          (clone_flag clone_thread))
        (clone_flag clone_sysvsem);
  pidfd = 0;
  child_tid = 0;
  parent_tid = 0;
  exit_signal = 0;
  stack = stack + 0x20000;
  stack_size = 0x20000;
  tls = 0;
  set_tid = 0;
  set_tid_size = 0;
  cgroup = 0;
}

-- The stack of the child, as CLONE3 takes it: `stack_size` bytes from `stack` on, of which it starts
-- at the upper end.
abbrev pub InStack : CloneArgs → ℕ → Type 0
InStack ca a = (ca.stack ≤ a) × (a < ca.stack + ca.stack_size)

-- The memory that `handle_fork` maps for it, which the handshake uses and the child unmaps.
abbrev pub InMapping : (stack a : ℕ) → Type 0
InMapping stack a = (stack ≤ a) × (a < stack + 0x20000)

-- The child's stack has nothing of the memory that is mapped for it: it lies right above.
pub fork_args-InStack :
    (stack a : ℕ)
    → InStack (fork_args stack) a
    → (InMapping stack a → ⊥) × InMapping stack (a - 0x20000)
unfolding fork_args
fork_args-InStack stack a h = (λ m. absurd (omega (arith, h, m)), omega (arith, h))
