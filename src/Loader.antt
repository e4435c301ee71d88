-- ===== src/Loader.antt =====
-- VM/WeeperVM.c, `load_vcode` and `_start`; and the length that
-- Compiler/WeeperVM_compile.py writes for it.
pub mod Rotate
pub mod Length
pub mod Start
pub mod Calls
use weeper_vm.Base.{
  ℕ, zero, suc, ◌+◌, ◌-◌, ◌*◌, ◌^◌, Bool, List, [], ◌∷◌, ◌++◌, Run, ok, exited, lift, ◌>>=◌, bit_or,
  bit_and, bit_xor, ◌<<<◌, ◌>>>◌, u16, u32, u8, sub32, ltb, not, if◌then◌else◌, length, get_elem?,
}
use weeper_vm.Strings.{rol32, ror32, proc_self_exe, c_string}

-- What the loader sees of the system: whether the processor has SSE, whether the file at a path can
-- be opened, the size of the program's own file, the bytes that a read of it gives (no read fails), and
-- whether memory can be had for so many bytes, and be made read-only.
pub record System : Type 0 where
  pub sse : Bool
  pub opens : List ℕ → Bool
  pub size : ℕ
  pub read : (offset count : ℕ) → List ℕ
  pub has_memory : ℕ → Bool
  pub protects : ℕ → Bool

-- The result or the offset of `sys_lseek`, an `int`: a negative one ends the program. SYS_lseek is 8.
unfoldable pub seek : ℕ → Run ℕ
seek offset = if ltb offset (2 ^ 31) then ok offset else exited 8

-- The four bytes from `i` on, as two big-endian halves.
unfoldable pub big_endian : List ℕ → ℕ → Run ℕ
big_endian b i = do
  b0 ← lift (get_elem? b i)
  b1 ← lift (get_elem? b (i + 1))
  b2 ← lift (get_elem? b (i + 2))
  b3 ← lift (get_elem? b (i + 3))
  ok (bit_or (bit_or 0 (u16 (bit_or b1 (b0 <<< 8)) <<< 16)) (u16 (bit_or b3 (b2 <<< 8)) <<< 0))

-- The first four bytes, as two little-endian halves.
unfoldable pub little_endian : List ℕ → Run ℕ
little_endian b = do
  b0 ← lift (get_elem? b 0)
  b1 ← lift (get_elem? b 1)
  b2 ← lift (get_elem? b 2)
  b3 ← lift (get_elem? b 3)
  ok (bit_or (bit_or 0 (u16 (bit_or b0 (b1 <<< 8)) <<< 0)) (u16 (bit_or b2 (b3 <<< 8)) <<< 16))

unfoldable pub decrypt_length : (k_elf hi lo : ℕ) → ℕ
decrypt_length k_elf hi lo = bit_xor k_elf (bit_xor (rol32 hi 13) (ror32 lo 27))

-- A mapping of `n` bytes, zero at first, with what was read at its start.
abbrev pub mapped : ℕ → List ℕ → List ℕ
mapped zero b = []
mapped (suc n) [] = 0 ∷ mapped n []
mapped (suc n) (x ∷ b) = x ∷ mapped n b

-- The path that `load_vcode` opens; every byte of the buffer is written.
unfoldable pub self_path : System → List ℕ
self_path s = c_string 16 (proc_self_exe s.sse (λ i. 0) 0x959e8e02) 0

-- The virtual code. SYS_open is 2 and SYS_mmap is 9.
unfoldable pub load_vcode : System → Run (List ℕ)
load_vcode s = if not (s.opens (self_path s)) then exited 2 else do
  self_size ← seek (u32 s.size)
  at_length ← seek (sub32 self_size 8)
  let encrypted = s.read at_length 8
  let elf_hdr = s.read 0 4
  lo ← big_endian encrypted 4
  hi ← big_endian encrypted 0
  k_elf ← little_endian elf_hdr
  let vcode_len = decrypt_length k_elf hi lo
  if not (s.has_memory vcode_len) then exited 9 else do
    at_code ← seek (sub32 (sub32 self_size 8) vcode_len)
    if not (s.protects vcode_len)
        then exited 8
        else ok (mapped vcode_len (s.read at_code vcode_len))

-- `x.to_bytes(4, byteorder='big')` of a word
unfoldable pub to_bytes : ℕ → List ℕ
to_bytes x = (x >>> 24) ∷ u8 (x >>> 16) ∷ u8 (x >>> 8) ∷ u8 x ∷ []

-- The compiler's rotations, on numbers of any size.
unfoldable pub compile_ror32 : ℕ → ℕ → ℕ
compile_ror32 x r = bit_and (bit_or (x >>> r) (x <<< (32 - r))) 0xffffffff

unfoldable pub compile_rol32 : ℕ → ℕ → ℕ
compile_rol32 x r = bit_and (bit_or (x <<< r) (x >>> (32 - r))) 0xffffffff

-- `cipherLen` for a code of `ans` bytes and the word `k_lo` that is drawn.
unfoldable pub cipher_len : (ans k_lo : ℕ) → List ℕ
cipher_len ans k_lo =
    let k_mix = bit_xor ans 0x464c457f in
    let k_hi = bit_xor k_mix k_lo in
    to_bytes (compile_ror32 k_hi 13) ++ to_bytes (compile_rol32 k_lo 27)

-- The file that the compiler writes.
unfoldable pub compile_file : List ℕ → ℕ → List ℕ
compile_file code k_lo = code ++ cipher_len (length code) k_lo
