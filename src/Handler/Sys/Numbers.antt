-- ===== src/Handler/Sys/Numbers.antt =====
-- The virtual system calls by their numbers.
use weeper_vm.Base.{ℕ, ◌+◌, ◌≡◌, ◌≢◌, refl, arith}
use weeper_vm.Handler.Sys.{
  Request, request, time_request, file_request, notify_request, make_request,
}

-- WeeperSyscall_t
pub data Syscall : Type 0 where
  syscall_sleep syscall_getpid syscall_getppid syscall_kill syscall_tod syscall_open syscall_read
        syscall_write syscall_close syscall_lseek syscall_notinit syscall_notadd syscall_notrm
        syscall_futex :
      Syscall

unfoldable pub number : Syscall → ℕ
number syscall_sleep = 0x10
number syscall_getpid = 0x11
number syscall_getppid = 0x12
number syscall_kill = 0x13
number syscall_tod = 0x14
number syscall_open = 0x20
number syscall_read = 0x21
number syscall_write = 0x22
number syscall_close = 0x23
number syscall_lseek = 0x24
number syscall_notinit = 0x30
number syscall_notadd = 0x31
number syscall_notrm = 0x32
number syscall_futex = 0x33

-- The system's own numbers, as VM/lib/syscall.h has them.
abbrev pub system_number : Syscall → ℕ
system_number syscall_sleep = 35
system_number syscall_getpid = 39
system_number syscall_getppid = 110
system_number syscall_kill = 62
system_number syscall_tod = 96
system_number syscall_open = 2
system_number syscall_read = 0
system_number syscall_write = 1
system_number syscall_close = 3
system_number syscall_lseek = 8
system_number syscall_notinit = 253
system_number syscall_notadd = 254
system_number syscall_notrm = 255
system_number syscall_futex = 202

-- What an argument of a system call is: a register as it is, an address in `vmem`, a constant, or
-- one that the system's call does not have.
pub data Argument : Type 0 where
  value address ignored : Argument
  fixed : ℕ → Argument

abbrev pub arguments : Syscall → Argument × Argument × Argument × Argument
arguments syscall_sleep = (address, fixed 0x2a, ignored, ignored)
arguments syscall_getpid = (ignored, ignored, ignored, ignored)
arguments syscall_getppid = (ignored, ignored, ignored, ignored)
arguments syscall_kill = (value, value, ignored, ignored)
arguments syscall_tod = (address, fixed 0, ignored, ignored)
arguments syscall_open = (address, value, fixed 0x05, ignored)
arguments syscall_read = (value, address, value, ignored)
arguments syscall_write = (value, address, value, ignored)
arguments syscall_close = (value, ignored, ignored, ignored)
arguments syscall_lseek = (value, value, value, ignored)
arguments syscall_notinit = (value, ignored, ignored, ignored)
arguments syscall_notadd = (value, address, value, ignored)
arguments syscall_notrm = (value, value, ignored, ignored)
arguments syscall_futex = (address, value, value, address)

abbrev pub Fits : Argument → (base register x : ℕ) → Type 0
Fits value base register x = x ≡ register
Fits address base register x = x ≡ base + register
Fits ignored base register x = Unit
Fits (fixed n) base register x = x ≡ n

abbrev pub IsRequest : Syscall → (base f0 f1 f2 f3 : ℕ) → Request → Type 0
IsRequest s base f0 f1 f2 f3 r =
    let (k0, k1, k2, k3) = arguments s in
    (r.code ≡ system_number s)
    × Fits k0 base f0 r.a0
    × Fits k1 base f1 r.a1
    × Fits k2 base f2 r.a2
    × Fits k3 base f3 r.a3

-- A number that is none of the fourteen.
abbrev pub IsOther : ℕ → Type 0
IsOther code = (s : Syscall) → code ≢ number s

named :
    (base f0 f1 f2 f3 : ℕ) (s : Syscall)
    → IsRequest s base f0 f1 f2 f3 (make_request base f0 f1 f2 f3 (number s))
unfolding make_request time_request file_request notify_request number
named base f0 f1 f2 f3 syscall_sleep = (refl, refl, refl, tt, tt)
named base f0 f1 f2 f3 syscall_getpid = (refl, tt, tt, tt, tt)
named base f0 f1 f2 f3 syscall_getppid = (refl, tt, tt, tt, tt)
named base f0 f1 f2 f3 syscall_kill = (refl, refl, refl, tt, tt)
named base f0 f1 f2 f3 syscall_tod = (refl, refl, refl, tt, tt)
named base f0 f1 f2 f3 syscall_open = (refl, refl, refl, refl, tt)
named base f0 f1 f2 f3 syscall_read = (refl, refl, refl, refl, tt)
named base f0 f1 f2 f3 syscall_write = (refl, refl, refl, refl, tt)
named base f0 f1 f2 f3 syscall_close = (refl, refl, tt, tt, tt)
named base f0 f1 f2 f3 syscall_lseek = (refl, refl, refl, refl, tt)
named base f0 f1 f2 f3 syscall_notinit = (refl, refl, tt, tt, tt)
named base f0 f1 f2 f3 syscall_notadd = (refl, refl, refl, refl, tt)
named base f0 f1 f2 f3 syscall_notrm = (refl, refl, refl, tt, tt)
named base f0 f1 f2 f3 syscall_futex = (refl, refl, refl, refl, refl)

other :
    (base f0 f1 f2 f3 code : ℕ)
    → IsOther code
    → make_request base f0 f1 f2 f3 code ≡ request code f0 f1 f2 f3
unfolding make_request time_request file_request notify_request number
other base f0 f1 f2 f3 code h = ground (
  arith,
  h syscall_sleep,
  h syscall_getpid,
  h syscall_getppid,
  h syscall_kill,
  h syscall_tod,
  h syscall_open,
  h syscall_read,
  h syscall_write,
  h syscall_close,
  h syscall_lseek,
  h syscall_notinit,
  h syscall_notadd,
  h syscall_notrm,
  h syscall_futex,
)

-- SYSCALL makes the call that the virtual number names. For each of the fourteen numbers of
-- WeeperSyscall_t the request has the system's number of that call, and every argument that the
-- system's call has, among the four that are passed, is pinned: the register F0 to F3 of its place, as it is or as an address in
-- `vmem`, or, for the second of nanosleep and of gettimeofday and the third of open, the constant
-- 0x2a, 0 or 5. Any other number goes to the system as it is, with the four registers.
pub make_request-number :
    (base f0 f1 f2 f3 : ℕ)
    → ((s : Syscall) → IsRequest s base f0 f1 f2 f3 (make_request base f0 f1 f2 f3 (number s)))
      × ((code : ℕ) → IsOther code → make_request base f0 f1 f2 f3 code ≡ request code f0 f1 f2 f3)
make_request-number base f0 f1 f2 f3 = (named base f0 f1 f2 f3, other base f0 f1 f2 f3)
