-- ===== src/Strings.antt =====
-- VM/src/strings.c: the path of the program's own file, which is put together from encrypted parts.
-- The answer of `cpuid`, whether SSE is there, is a parameter.
pub mod Key
use weeper_vm.Base.{
  ℕ, zero, suc, ◌+◌, ◌-◌, ◌*◌, ◌^◌, bit_and, bit_or, bit_xor, Bool, List, [], ◌∷◌, ◌<<<◌, ◌>>>◌,
  u32, not, ◌==◌, if◌then◌else◌,
}
use weeper_vm.Machine.{Bytes, update}

-- ROL32 and ROR32 of VM/lib/utils.h
unfoldable pub rol32 : ℕ → ℕ → ℕ
rol32 x r = bit_or (u32 (x <<< r)) (x >>> (32 - r))

unfoldable pub ror32 : ℕ → ℕ → ℕ
ror32 x r = bit_or (x >>> r) (u32 (x <<< (32 - r)))

-- The four bytes of a word at `i`, the highest first.
unfoldable pub high_first : Bytes → (i chunk : ℕ) → Bytes
high_first buf i chunk =
    let b0 = update buf i (bit_and (bit_and chunk 0xff000000 >>> 24) 0xff) in
    let b1 = update b0 (i + 1) (bit_and (bit_and chunk 0x00ff0000 >>> 16) 0xff) in
    let b2 = update b1 (i + 2) (bit_and (bit_and chunk 0x0000ff00 >>> 8) 0xff) in
    update b2 (i + 3) (bit_and (bit_and chunk 0x000000ff >>> 0) 0xff)

-- The lowest first.
unfoldable pub low_first : Bytes → (i chunk : ℕ) → Bytes
low_first buf i chunk =
    let b0 = update buf i (bit_and (chunk >>> 0) 0xff) in
    let b1 = update b0 (i + 1) (bit_and (chunk >>> 8) 0xff) in
    let b2 = update b1 (i + 2) (bit_and (chunk >>> 16) 0xff) in
    update b2 (i + 3) (bit_and (chunk >>> 24) 0xff)

-- The parts in the order in which they are written.
unfoldable pub proc_self_exe : (sse : Bool) → Bytes → ℕ → Bytes
proc_self_exe sse buf key =
    let b2 =
      if not sse
      then high_first buf 4 (bit_xor (ror32 0xd386c053 11) key)
      else low_first buf 4 (bit_xor (ror32 0x0eda161f 4) key) in
    let b4 =
      if sse
      then low_first b2 12 (bit_xor (ror32 0xdd6f52b3 13) key)
      else high_first b2 12 (bit_xor (ror32 0xe6b47181 12) key) in
    let b3 =
      if sse
      then low_first b4 8 (bit_xor (ror32 0x58f43778 7) key)
      else high_first b4 8 (bit_xor (ror32 0x874e73d3 11) key) in
    if not sse
    then high_first b3 0 (bit_xor (ror32 0xd3edb221 15) key)
    else low_first b3 0 (bit_xor (ror32 0xd9fc5bf5 9) key)

-- The characters of a string from `i` on, of `room` at most.
abbrev pub c_string : (room : ℕ) → Bytes → ℕ → List ℕ
c_string zero buf i = []
c_string (suc room) buf i =
    let rest = c_string room buf (i + 1) in if buf i == 0 then [] else buf i ∷ rest
