-- ===== src/Syscalls/Wrapper.antt =====
-- What the functions of VM/src/syscall.c ask of the system, and what they do with its reply.
use weeper_vm.Base.{
  ℕ, ◌+◌, ◌-◌, ◌^◌, ◌<◌, ◌≤◌, ◌≡◌, ◌⊎◌, inl, inr, refl, arith, Option, none, some, Run, ok, exited,
  ◌>>=◌, u32, if◌then◌else◌, Bool, true, false, ◌∙◌,
}
use weeper_vm.Syscalls.{
  World, Registers, negative_int, negative_long, SystemCall, call_read, call_write, call_open,
  call_close, call_lseek, call_mmap, call_mprotect, call_munmap, call_number, sys_close, sys_exit,
  exit_if, sys_lseek, sys_mmap, sys_mprotect, sys_munmap, sys_open, sys_read, sys_write,
}

-- The functions that are their system call, but for those that end the process.
pub data Wrapper : Type 0 where
  of_close of_lseek of_mmap of_mprotect of_munmap of_open of_read of_write : Wrapper

abbrev pub call_of : Wrapper → SystemCall
call_of of_close = call_close
call_of of_lseek = call_lseek
call_of of_mmap = call_mmap
call_of of_mprotect = call_mprotect
call_of of_munmap = call_munmap
call_of of_open = call_open
call_of of_read = call_read
call_of of_write = call_write

-- The six arguments. MMAP is asked for private memory of three parameters, at no address, with no
-- file; the others pass their parameters on.
abbrev pub asks : Wrapper → Registers → Registers
asks of_mmap r = record {
  rax = call_number call_mmap;
  rdi = 0;
  rsi = r.rdi;
  rdx = r.rsi;
  r10 = r.rdx;
  r8 = 2 ^ 32 - 1;
  r9 = 0;
}
asks w r = record r { rax = call_number (call_of w) }

-- A reply of the system: a number of an error, or a result. A descriptor, a position below 2 GiB
-- and 0 are an `int`; an address and a count are a `long` that is not negative, a count below 2 GiB.
abbrev pub IsResult : Wrapper → ℕ → Type 0
IsResult of_mmap x = x < 2 ^ 63
IsResult w x = x < 2 ^ 31

abbrev pub IsError : ℕ → Type 0
IsError x = (2 ^ 64 ≤ x + 4095) × (x < 2 ^ 64)

-- The code with which a function ends the process when its call fails.
abbrev pub failure : Wrapper → Option ℕ
failure of_lseek = some 8
failure of_mmap = some 9
failure of_mprotect = some 8
failure of_open = some 2
failure of_read = some 0
failure w = none

-- What a function returns, for those that return a value.
abbrev pub value : Wrapper → ℕ → Option ℕ
value of_lseek x = some x
value of_mmap x = some x
value of_open x = some x
value of_write x = some x
value w x = none

-- What a function does on an error: it ends the process, or does not look.
abbrev pub on_error : {S : Type 0} → Wrapper → ℕ → World S → Run (Option ℕ × World S)
on_error w x mem = elim (failure w) [ none ↦ ok (value w (u32 x), mem) | some code ↦ exited code ]

-- EXIT ends the process with its parameter, an `int`.
abbrev pub Exits : {S : Type 0} → (Registers → World S → Run (ℕ × World S)) → Type 0
Exits {S = S} syscall =
    (r : Registers) (mem : World S) → r.rax ≡ 60 → syscall r mem ≡ exited (u32 r.rdi)

abbrev with_value : {S : Type 0} → Run (ℕ × World S) → Run (Option ℕ × World S)
with_value r = r >>= λ (x, mem). ok (some x, mem)

abbrev without_value : {S : Type 0} → Run (World S) → Run (Option ℕ × World S)
without_value r = r >>= λ mem. ok (none, mem)

module _ {S : Type 0} (syscall : Registers → World S → Run (ℕ × World S)) where
  abbrev pub run : Wrapper → Registers → World S → Run (Option ℕ × World S)
  run of_close r mem = without_value (sys_close syscall r mem)
  run of_lseek r mem = with_value (sys_lseek syscall r mem)
  run of_mmap r mem = with_value (sys_mmap syscall r mem)
  run of_mprotect r mem = without_value (sys_mprotect syscall r mem)
  run of_munmap r mem = without_value (sys_munmap syscall r mem)
  run of_open r mem = with_value (sys_open syscall r mem)
  run of_read r mem = without_value (sys_read syscall r mem)
  run of_write r mem = with_value (sys_write syscall r mem)

  small_int : (x : ℕ) → x < 2 ^ 31 → (u32 x ≡ x) × (negative_int (u32 x) ≡ false)
  small_int x h = ground arith

  error_int : (x : ℕ) → IsError x → negative_int (u32 x) ≡ true
  error_int x h = ground arith

  small_long : (x : ℕ) → x < 2 ^ 63 → negative_long x ≡ false
  small_long x h = ground arith

  error_long : (x : ℕ) → IsError x → negative_long x ≡ true
  error_long x h = ground arith

  run-result :
      (w : Wrapper) (r : Registers) (mem mem' : World S) (x : ℕ)
      → syscall (asks w r) mem ≡ ok (x, mem')
      → IsResult w x
      → run w r mem ≡ ok (value w x, mem')
  unfolding sys_close sys_lseek sys_mmap sys_mprotect sys_munmap sys_open sys_read sys_write exit_if
  run-result of_close r mem mem' x e h = rw e refl
  run-result of_lseek r mem mem' x e h = rw (e, (small_int x h).1, (small_int x h).0) refl
  run-result of_mmap r mem mem' x e h = rw (e, small_long x h) refl
  run-result of_mprotect r mem mem' x e h = rw (e, (small_int x h).1) refl
  run-result of_munmap r mem mem' x e h = rw e refl
  run-result of_open r mem mem' x e h = rw (e, (small_int x h).1, (small_int x h).0) refl
  run-result of_read r mem mem' x e h = rw (e, (small_int x h).1) refl
  run-result of_write r mem mem' x e h = rw (e, (small_int x h).0) refl

  module _ (exits : Exits syscall) where
    exit_if-true :
        (b : Bool) (code : ℕ) (r : Registers) (mem : World S)
        → b ≡ true
        → exit_if syscall b code r mem ≡ exited (u32 code)
    unfolding exit_if sys_exit call_number
    exit_if-true b code r mem e = rw (e, exits (record r { rdi = code; rax = 60 }) mem refl) refl

    run-error :
        (w : Wrapper) (r : Registers) (mem mem' : World S) (x : ℕ)
        → syscall (asks w r) mem ≡ ok (x, mem')
        → IsError x
        → run w r mem ≡ on_error w x mem'
    unfolding sys_close sys_lseek sys_mmap sys_mprotect sys_munmap sys_open sys_read sys_write
        call_number
    run-error of_close r mem mem' x e h = rw e refl
    run-error of_lseek r mem mem' x e h =
        rw (e, exit_if-true (negative_int (u32 x)) 8 r mem' (error_int x h)) refl
    run-error of_mmap r mem mem' x e h =
        rw (e, exit_if-true (negative_long x) 9 (asks of_mmap r) mem' (error_long x h)) refl
    run-error of_mprotect r mem mem' x e h =
        rw (e, exit_if-true (negative_int (u32 x)) 8 r mem' (error_int x h)) refl
    run-error of_munmap r mem mem' x e h = rw e refl
    run-error of_open r mem mem' x e h =
        rw (e, exit_if-true (negative_int (u32 x)) 2 r mem' (error_int x h)) refl
    run-error of_read r mem mem' x e h =
        rw (e, exit_if-true (negative_int (u32 x)) 0 r mem' (error_int x h)) refl
    run-error of_write r mem mem' x e h = rw e refl

IsResult-long : (w : Wrapper) (x : ℕ) → IsResult w x → x < 2 ^ 63
IsResult-long of_close x h = omega (arith, h)
IsResult-long of_lseek x h = omega (arith, h)
IsResult-long of_mmap x h = h
IsResult-long of_mprotect x h = omega (arith, h)
IsResult-long of_munmap x h = omega (arith, h)
IsResult-long of_open x h = omega (arith, h)
IsResult-long of_read x h = omega (arith, h)
IsResult-long of_write x h = omega (arith, h)

-- Each function makes its system call with the arguments that it should, and deals with the reply.
-- Let the number EXIT end the process, and let the system reply `x` to the call that the function
-- should make. If `x` is a result, the function returns it, unchanged, where it returns a value,
-- with the memory as the call left it. If `x` is an error, then LSEEK, MMAP, OPEN and READ end the
-- process with the number of their own call, and MPROTECT with that of LSEEK; CLOSE and MUNMAP
-- return as if there were none, and WRITE returns the low half of the error.
pub run-reply :
    {S : Type 0} (syscall : Registers → World S → Run (ℕ × World S)) (w : Wrapper) (r : Registers)
    (mem mem' : World S) (x : ℕ)
    → Exits syscall
    → syscall (asks w r) mem ≡ ok (x, mem')
    → IsResult w x ⊎ IsError x
    → run syscall w r mem ≡ (if negative_long x then on_error w x mem' else ok (value w x, mem'))
run-reply syscall w r mem mem' x exits e (inl h) =
    run-result syscall w r mem mem' x e h ∙ rw (small_long syscall x (IsResult-long w x h)) refl
run-reply syscall w r mem mem' x exits e (inr h) =
    run-error syscall exits w r mem mem' x e h ∙ rw (error_long syscall x h) refl
