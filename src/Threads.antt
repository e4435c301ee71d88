-- ===== src/Threads.antt =====
-- VM/src/emulate.c, `handle_fork` and `emulate`, over all the threads of the process: they share code
-- and memory, each has its own `WeeperContext`, and their instructions are interleaved as wholes.
pub mod Invariant
pub mod Ready
use weeper_vm.Base.{
  ℕ, List, [], ◌∷◌, ◌++◌, map, Run, ok, exited, ◌>>=◌, ◌≡◌, ◌≢◌, All, ◌==◌, if◌then◌else◌,
}
use weeper_vm.Stack.{Stack, stack_init}
use weeper_vm.Machine.{Bytes, Machine}
use weeper_vm.Handler.Sys.{Kernel}
use weeper_vm.Emulate.{emulate_step}

-- A thread is before an instruction, or it is over by `sys_exit`, or its `emulate` has returned.
pub data Place : Type 0 where
  runs_at : ℕ → Place
  stopped returned : Place

-- A `WeeperContext`, and where its thread is.
pub record Context : Type 0 where
  pub vregs : ℕ → ℕ
  pub call_stack : Stack
  pub vflag : ℕ
  pub place : Place

pub record Process : Type 0 where
  pub vcode : List ℕ
  pub vmem : Bytes
  pub threads : List Context

-- What a thread works on.
abbrev pub machine_of : List ℕ → Bytes → Context → Machine
machine_of vcode vmem c = record {
  vcode = vcode;
  vmem = vmem;
  vregs = c.vregs;
  call_stack = c.call_stack;
  vflag = c.vflag;
  forks = [];
}

-- A thread at the start of `emulate`.
abbrev pub spawned : Stack → ℕ → Context
spawned blank vip = record {
  vregs = λ r. 0;
  call_stack = stack_init blank;
  vflag = 0;
  place = runs_at vip;
}

-- The loop ends only behind an instruction.
unfoldable pub advance : ℕ → Place
advance vip = if vip == 0xffffff then returned else runs_at vip

-- What one round of a thread leaves: the memory, the thread, and the threads that it has started.
pub record Round : Type 0 where
  pub vmem : Bytes
  pub context : Context
  pub started : List Context

unfoldable pub run_round : Kernel → Stack → List ℕ → Bytes → Context → ℕ → Run Round
run_round k blank vcode vmem c vip = do
  (vip', m) ← emulate_step k (machine_of vcode vmem c) vip
  ok (record {
    vmem = m.vmem;
    context = record {
      vregs = m.vregs;
      call_stack = m.call_stack;
      vflag = m.vflag;
      place = advance vip';
    };
    started = map (spawned blank) m.forks;
  })

abbrev process : List ℕ → Bytes → List Context → Process
process vcode vmem threads = record { vcode = vcode; vmem = vmem; threads = threads }

-- Any thread that is before an instruction may take its round, with any kernel that `Behaves` allows.
-- None has returned: the return of the first thread ends the process, and that of another unmaps the
-- memory of its ready flag and then goes on from `handle_fork` on a stack that has no frame of it,
-- which C does not define.
pub data Step (Behaves : Kernel → Type 0) (blank : Stack) : Process → Process → Type 0 where
  round :
      {vcode : List ℕ} {vmem : Bytes} (before : List Context) (c : Context) (after : List Context)
      (vip : ℕ) (r : Round) (k : Kernel)
      → Behaves k
      → All (λ d. d.place ≢ returned) (before ++ (c ∷ after))
      → c.place ≡ runs_at vip
      → run_round k blank vcode vmem c vip ≡ ok r
      → Step Behaves blank
          (process vcode vmem (before ++ (c ∷ after)))
          (process vcode r.vmem (before ++ (r.context ∷ (after ++ r.started))))
  exit :
      {vcode : List ℕ} {vmem : Bytes} (before : List Context) (c : Context) (after : List Context)
      (vip status : ℕ) (k : Kernel)
      → Behaves k
      → All (λ d. d.place ≢ returned) (before ++ (c ∷ after))
      → c.place ≡ runs_at vip
      → run_round k blank vcode vmem c vip ≡ exited status
      → Step Behaves blank
          (process vcode vmem (before ++ (c ∷ after)))
          (process vcode vmem (before ++ (record c { place = stopped } ∷ after)))

-- The process as `_start` calls `emulate`, with the code that is loaded.
abbrev pub initial : Stack → List ℕ → Process
initial blank vcode = process vcode (λ a. 0) (spawned blank 0 ∷ [])

-- The states of all interleavings.
pub data Reaches (Behaves : Kernel → Type 0) (blank : Stack) (p : Process) : Process → Type 0 where
  now : Reaches Behaves blank p p
  next :
      {q r : Process}
      → Reaches Behaves blank p q
      → Step Behaves blank q r
      → Reaches Behaves blank p r
