-- ===== src/Syscalls.antt =====
-- VM/lib/syscall.h and VM/src/syscall.c: the numbers of the system calls, and the functions that
-- make them. A function stands for its assembly: it takes the registers that the caller has filled,
-- in which the System V convention puts the first three parameters into RDI, RSI and RDX, and
-- memory. What `syscall` does is a parameter: the number that it leaves in RAX and the memory, or
-- that it ends the process. It is taken that a function is called as the convention says, and is
-- not expanded in line, since its assembly does not name its inputs.
pub mod Wrapper
pub mod Print
pub mod Sleep
use weeper_vm.Base.{
  ℕ, zero, suc, ◌+◌, ◌-◌, ◌*◌, ◌/◌, ◌%◌, ◌^◌, Run, ok, undefined, ◌>>=◌, u32, leb, ◌==◌,
  if◌then◌else◌, Bool,
}
use weeper_vm.Machine.{Bytes, update}

pub data SystemCall : Type 0 where
  call_read call_write call_open call_close call_lseek call_mmap call_mprotect call_munmap
        call_nanosleep call_getpid call_exit call_kill call_gettimeofday call_getppid call_futex
        call_exit_group call_inotify_init call_inotify_add_watch call_inotify_rm_watch call_clone3 :
      SystemCall

-- SYS_read to SYS_clone3
unfoldable pub call_number : SystemCall → ℕ
call_number call_read = 0
call_number call_write = 1
call_number call_open = 2
call_number call_close = 3
call_number call_lseek = 8
call_number call_mmap = 9
call_number call_mprotect = 10
call_number call_munmap = 11
call_number call_nanosleep = 35
call_number call_getpid = 39
call_number call_exit = 60
call_number call_kill = 62
call_number call_gettimeofday = 96
call_number call_getppid = 110
call_number call_futex = 202
call_number call_exit_group = 231
call_number call_inotify_init = 253
call_number call_inotify_add_watch = 254
call_number call_inotify_rm_watch = 255
call_number call_clone3 = 435

-- Access to a file and to memory, the kinds of memory, and the origins of a position.
abbrev pub o_rdonly : ℕ
o_rdonly = 0

abbrev pub prot_read : ℕ
prot_read = 1

abbrev pub prot_write : ℕ
prot_write = 2

abbrev pub map_private : ℕ
map_private = 0x02

abbrev pub map_anonymous : ℕ
map_anonymous = 0x20

abbrev pub from_start : ℕ
from_start = 0

abbrev pub from_end : ℕ
from_end = 2

-- The 64-bit registers that a system call reads.
pub record Registers : Type 0 where
  pub rax : ℕ
  pub rdi : ℕ
  pub rsi : ℕ
  pub rdx : ℕ
  pub r10 : ℕ
  pub r8 : ℕ
  pub r9 : ℕ

-- Memory, and the rest of the system.
pub record World (S : Type 0) : Type 0 where
  pub mem : Bytes
  pub sys : S

-- `x < 0` of an `int` and of a `long`.
abbrev pub negative_int : ℕ → Bool
negative_int x = leb (2 ^ 31) x

abbrev pub negative_long : ℕ → Bool
negative_long x = leb (2 ^ 63) x

-- The `n` low bytes of a number, the lowest first.
unfoldable pub put_little : ℕ → Bytes → ℕ → ℕ → Bytes
put_little zero mem a x = mem
put_little (suc n) mem a x = put_little n (update mem a (x % 256)) (a + 1) (x / 256)

-- An `int` as a `long`.
unfoldable pub extend : ℕ → ℕ
extend x = if negative_int x then x + 2 ^ 64 - 2 ^ 32 else x

-- The loop of `sys_print`, for at most `fuel` rounds: the index of the zero.
unfoldable pub print_loop : (fuel : ℕ) → Bytes → (buf i : ℕ) → Run ℕ
print_loop zero mem buf i = undefined
print_loop (suc fuel) mem buf i =
    let rest = print_loop fuel mem buf (i + 1) in if mem (buf + i) == 0 then ok i else rest

module _ {S : Type 0} (syscall : Registers → World S → Run (ℕ × World S)) where
  unfoldable pub sys_close : Registers → World S → Run (World S)
  sys_close r w = do (_, w') ← syscall (record r { rax = call_number call_close }) w; ok w'

  unfoldable pub sys_exit : Registers → World S → Run (World S)
  sys_exit r w = do (_, w') ← syscall (record r { rax = call_number call_exit }) w; ok w'

  unfoldable pub sys_exit_group : Registers → World S → Run (World S)
  sys_exit_group r w = do
    (_, w') ← syscall (record r { rax = call_number call_exit_group }) w
    ok w'

  -- `if(...) sys_exit(code);`
  unfoldable pub exit_if : Bool → (code : ℕ) → Registers → World S → Run (World S)
  exit_if b code r w = if b then sys_exit (record r { rdi = code }) w else ok w

  unfoldable pub sys_lseek : Registers → World S → Run (ℕ × World S)
  sys_lseek r w = do
    (rax, w') ← syscall (record r { rax = call_number call_lseek }) w
    let pos = u32 rax
    w2 ← exit_if (negative_int pos) (call_number call_lseek) r w'
    ok (pos, w2)

  -- A move to R8D clears the upper half of R8.
  unfoldable pub sys_mmap : Registers → World S → Run (ℕ × World S)
  sys_mmap r w = do
    let r1 = record r { rax = call_number call_mmap }
    let r2 = record r1 { r10 = r1.rdx }
    let r3 = record r2 { rdx = r2.rsi }
    let r4 = record r3 { rsi = r3.rdi }
    let r5 = record r4 { rdi = 0 }
    let r6 = record r5 { r8 = 2 ^ 32 - 1 }
    let r7 = record r6 { r9 = 0 }
    (mempage, w') ← syscall r7 w
    w2 ← exit_if (negative_long mempage) (call_number call_mmap) r7 w'
    ok (mempage, w2)

  unfoldable pub sys_mprotect : Registers → World S → Run (World S)
  sys_mprotect r w = do
    (rax, w') ← syscall (record r { rax = call_number call_mprotect }) w
    exit_if (negative_int (u32 rax)) (call_number call_lseek) r w'

  unfoldable pub sys_munmap : Registers → World S → Run (World S)
  sys_munmap r w = do (_, w') ← syscall (record r { rax = call_number call_munmap }) w; ok w'

  unfoldable pub sys_open : Registers → World S → Run (ℕ × World S)
  sys_open r w = do
    (rax, w') ← syscall (record r { rax = call_number call_open }) w
    let fd = u32 rax
    w2 ← exit_if (negative_int fd) (call_number call_open) r w'
    ok (fd, w2)

  -- It has no `return`, so no value.
  unfoldable pub sys_read : Registers → World S → Run (World S)
  sys_read r w = do
    (rax, w') ← syscall (record r { rax = call_number call_read }) w
    exit_if (negative_int (u32 rax)) (call_number call_read) r w'

  -- `req` is on the stack, at `req`.
  unfoldable pub sys_sleep : (req sec nano : ℕ) → Registers → World S → Run (World S)
  sys_sleep req sec nano r w = do
    let filled = put_little 8 (put_little 8 w.mem req (extend sec)) (req + 8) (extend nano)
    (_, w') ←
        syscall (record r { rax = call_number call_nanosleep; rdi = req; rsi = 0; rdx = 0 })
          (record w { mem = filled })
    ok w'

  -- `long x` is returned as an `int`.
  unfoldable pub sys_write : Registers → World S → Run (ℕ × World S)
  sys_write r w = do (x, w') ← syscall (record r { rax = call_number call_write }) w; ok (u32 x, w')

  unfoldable pub sys_print : (fuel : ℕ) → (buf : ℕ) → Registers → World S → Run (ℕ × World S)
  sys_print fuel buf r w = do
    i ← print_loop fuel w.mem buf 0
    sys_write (record r { rdi = 1; rsi = buf; rdx = i }) w
