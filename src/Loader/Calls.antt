-- ===== src/Loader/Calls.antt =====
-- VM/WeeperVM.c, `load_vcode`, with its system calls and its buffers on the stack.
pub mod Buffers
pub mod Serves
pub mod Reads
pub mod Refine
use weeper_vm.Base.{
  ℕ, zero, suc, ◌+◌, ◌-◌, ◌^◌, Bool, ◌&&◌, List, [], ◌∷◌, Run, ok, ◌>>=◌, u32, sub32, ltb, leb,
  bit_or, if◌then◌else◌,
}
use weeper_vm.Machine.{Bytes}
use weeper_vm.Strings.{proc_self_exe}
use weeper_vm.Syscalls.{
  Registers, World, negative_int, exit_if, sys_open, sys_lseek, sys_read, sys_mmap, sys_mprotect,
  sys_close, o_rdonly, prot_read, prot_write, map_private, map_anonymous, from_start, from_end,
}
use weeper_vm.Loader.{big_endian, little_endian, decrypt_length}

-- Where `procSelfExe`, `vcode_lenAsBytes` and `elfHdr` are, and what `cpuid` says.
pub record BufferPlaces : Type 0 where
  pub path_at : ℕ
  pub len_at : ℕ
  pub elf_at : ℕ
  pub sse : Bool

-- The bytes of memory from `a` on.
abbrev pub bytes_of : ℕ → Bytes → ℕ → List ℕ
bytes_of zero mem a = []
bytes_of (suc n) mem a = mem a ∷ bytes_of n mem (a + 1)

-- Memory with a buffer of 16 bytes at `a` filled.
abbrev pub with_path : Bytes → ℕ → Bytes → Bytes
with_path mem a buf x = if leb a x && ltb x (a + 16) then buf (x - a) else mem x

-- The registers of a call with three parameters. An `int` is zero-extended, as a move to a 32-bit
-- register does it.
abbrev pub call3 : Registers → (a b c : ℕ) → Registers
call3 r a b c = record r { rdi = a; rsi = b; rdx = c }

module _ {S : Type 0} (syscall : Registers → World S → Run (ℕ × World S)) (f : BufferPlaces) where
  -- The three parts: the two buffers read, the length decrypted, and the code read.
  unfoldable pub read_buffers : Registers → World S → Run (ℕ × ℕ × World S)
  read_buffers r w = do
    let path = proc_self_exe f.sse (λ i. w.mem (f.path_at + i)) 0x959e8e02
    (self_fd, w1) ←
        sys_open syscall (call3 r f.path_at o_rdonly r.rdx)
          (record w { mem = with_path w.mem f.path_at path })
    w2 ← exit_if syscall (negative_int self_fd) 1 r w1
    (self_size, w3) ← sys_lseek syscall (call3 r self_fd 0 from_end) w2
    (_, w4) ← sys_lseek syscall (call3 r self_fd (sub32 self_size 8) from_start) w3
    w5 ← sys_read syscall (call3 r self_fd f.len_at 8) w4
    (_, w6) ← sys_lseek syscall (call3 r self_fd 0 from_start) w5
    w7 ← sys_read syscall (call3 r self_fd f.elf_at 4) w6
    ok (self_fd, self_size, w7)

  unfoldable pub length_of : World S → Run ℕ
  length_of w = do
    lo ← big_endian (bytes_of 8 w.mem f.len_at) 4
    hi ← big_endian (bytes_of 8 w.mem f.len_at) 0
    k_elf ← little_endian (bytes_of 4 w.mem f.elf_at)
    ok (decrypt_length k_elf hi lo)

  unfoldable pub read_code :
      Registers → (self_fd self_size vcode_len : ℕ) → World S → Run (ℕ × World S)
  read_code r self_fd self_size vcode_len w = do
    (vcode, w1) ←
        sys_mmap syscall
          (call3 r vcode_len (bit_or prot_read prot_write) (bit_or map_private map_anonymous)) w
    (_, w2) ←
        sys_lseek syscall (call3 r self_fd (sub32 (sub32 self_size 8) vcode_len) from_start) w1
    w3 ← sys_read syscall (call3 r self_fd vcode vcode_len) w2
    w4 ← sys_mprotect syscall (call3 r vcode vcode_len prot_read) w3
    w5 ← sys_close syscall (call3 r self_fd r.rsi r.rdx) w4
    ok (vcode, w5)

  -- `vcode`, the length, and what is left behind.
  unfoldable pub load_by_calls : Registers → World S → Run (ℕ × ℕ × World S)
  load_by_calls r w = do
    (self_fd, self_size, w1) ← read_buffers r w
    vcode_len ← length_of w1
    (vcode, w2) ← read_code r self_fd self_size vcode_len w1
    ok (vcode, vcode_len, w2)
