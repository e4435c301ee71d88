-- ===== src/Loader/Length.antt =====
-- The loader finds the code that the compiler has written.
use weeper_vm.Base.{
  ℕ, zero, suc, ◌+◌, ◌*◌, ◌/◌, ◌%◌, ◌^◌, ◌<◌, ◌≡◌, refl, ap, arith, true, List, [], ◌∷◌, ◌++◌, ok,
  bit_or, bit_xor, ◌<<<◌, ◌>>>◌, u8, u16, u32, sub32, length, take, drop, ◌≤◌, take-append,
  drop-append, length-append,
}
use weeper_vm.Base.Bits.{
  or_join, or_join_low, zero-or, xor-lt, xor_cancel, xor_cancel_left, xor_comm,
}
use weeper_vm.Strings.Key.{self_exe, decrypted}
use weeper_vm.Loader.{
  self_path, System, seek, big_endian, little_endian, decrypt_length, mapped, load_vcode, to_bytes,
  cipher_len, compile_file, compile_ror32, compile_rol32,
}
use weeper_vm.Loader.Rotate.{
  compile_ror32-lt, compile_rol32-lt, rol32-compile_ror32, ror32-compile_rol32,
}

-- A half and a word from their parts.
half : (a b : ℕ) → a < 256 → b < 256 → u16 (bit_or b (a <<< 8)) ≡ a * 256 + b
half a b ha hb = ground (arith, or_join_low 8 a b hb)

word :
    (x : ℕ)
    → x < 2 ^ 32
    → bit_or
        (bit_or 0 (u16 (bit_or (u8 (x >>> 16)) (x >>> 24 <<< 8)) <<< 16))
        (u16 (bit_or (u8 x) (u8 (x >>> 8) <<< 8)) <<< 0)
      ≡ x
word x h = ground (
  arith,
  half (x >>> 24) (u8 (x >>> 16)),
  half (u8 (x >>> 8)) (u8 x),
  zero-or ((x / 16777216 * 256 + x / 65536 % 256) * 65536),
  or_join 16 (x / 16777216 * 256 + x / 65536 % 256) (x / 256 % 256 * 256 + x % 256) (omega arith),
)

-- Four bytes of a word in a list, read as one.
big_endian-to_bytes : (x : ℕ) (xs : List ℕ) → x < 2 ^ 32 → big_endian (to_bytes x ++ xs) 0 ≡ ok x
unfolding big_endian to_bytes
big_endian-to_bytes x xs h = ap ok (word x h)

big_endian-second : (x y : ℕ) → y < 2 ^ 32 → big_endian (to_bytes x ++ to_bytes y) 4 ≡ ok y
unfolding big_endian to_bytes
big_endian-second x y h = ap ok (word y h)

-- The loader's decryption undoes the compiler's encryption.
decrypt_length-cipher :
    (ans k_lo : ℕ)
    → ans < 2 ^ 32
    → k_lo < 2 ^ 32
    → decrypt_length 0x464c457f
        (compile_ror32 (bit_xor (bit_xor ans 0x464c457f) k_lo) 13)
        (compile_rol32 k_lo 27)
      ≡ ans
unfolding decrypt_length
decrypt_length-cipher ans k_lo ha hk =
    rw
      (
        rol32-compile_ror32 (bit_xor (bit_xor ans 0x464c457f) k_lo) (
            xor-lt 32 (bit_xor ans 0x464c457f) k_lo (xor-lt 32 ans 0x464c457f ha (omega arith)) hk),
        ror32-compile_rol32 k_lo hk,
        xor_cancel (bit_xor ans 0x464c457f) k_lo,
        xor_comm ans 0x464c457f,
        xor_cancel_left 0x464c457f ans,
      )
      refl

-- A processor with SSE, where the path of the program's own file leads to a regular file of these
-- bytes, which fits an `int`, and reads of it within its end.
pub record IsFile (s : System) (bytes : List ℕ) : Type 0 where
  pub sse : s.sse ≡ true
  pub opens : s.opens self_exe ≡ true
  pub size : s.size ≡ length bytes
  pub read :
      (offset count : ℕ)
      → offset + count ≤ length bytes
      → s.read offset count ≡ take count (drop offset bytes)

self_path-self_exe : (s : System) → s.sse ≡ true → self_path s ≡ self_exe
unfolding self_path
self_path-self_exe s e = rw e (decrypted (λ i. 0))

mapped-all : (xs : List ℕ) → mapped (length xs) xs ≡ xs
mapped-all [] = refl
mapped-all (x ∷ xs) = ap (λ ys. x ∷ ys) (mapped-all xs)

-- What stands behind a first part, and behind two.
drop_first : (k : ℕ) (a b : List ℕ) → k ≡ length a → drop k (a ++ b) ≡ b
drop_first k a b e = rw e (drop-append a b)

drop_second : (k : ℕ) (a b c : List ℕ) → k ≡ length a + length b → drop k (a ++ (b ++ c)) ≡ c
drop_second k [] b c e = drop_first k b c (omega arith)
drop_second zero (x ∷ a) b c e = absurd (omega arith)
drop_second (suc k) (x ∷ a) b c e = drop_second k a b c (omega arith)

length-cipher_len : (ans k_lo : ℕ) → length (cipher_len ans k_lo) ≡ 8
unfolding cipher_len to_bytes
length-cipher_len ans k_lo = refl

take-cipher_len : (ans k_lo : ℕ) → take 8 (cipher_len ans k_lo) ≡ cipher_len ans k_lo
unfolding cipher_len to_bytes
take-cipher_len ans k_lo = refl

seek-ok : (a b : ℕ) → a ≡ b → b < 2 ^ 31 → seek a ≡ ok b
unfolding seek
seek-ok a b e h = ground arith

-- What the loader makes of the encrypted length.
length_words :
    (n k_lo : ℕ)
    → n < 2 ^ 32
    → k_lo < 2 ^ 32
    → (big_endian (cipher_len n k_lo) 4 ≡ ok (compile_rol32 k_lo 27))
      × (big_endian (cipher_len n k_lo) 0
          ≡ ok (compile_ror32 (bit_xor (bit_xor n 0x464c457f) k_lo) 13))
unfolding cipher_len
length_words n k_lo hn hk =
    let k_hi = bit_xor (bit_xor n 0x464c457f) k_lo in
    let hi : k_hi < 2 ^ 32 =
      xor-lt 32 (bit_xor n 0x464c457f) k_lo (xor-lt 32 n 0x464c457f hn (omega arith)) hk in
    (
      big_endian-second (compile_ror32 k_hi 13) (compile_rol32 k_lo 27) (compile_rol32-lt k_lo hk),
      big_endian-to_bytes (compile_ror32 k_hi 13) (to_bytes (compile_rol32 k_lo 27))
          (compile_ror32-lt k_hi hi),
    )

elf_word : little_endian (0x7f ∷ 0x45 ∷ 0x4c ∷ 0x46 ∷ []) ≡ ok 0x464c457f
unfolding little_endian
elf_word = refl

-- Loading undoes compiling: the file that the compiler writes for `code`, with any word drawn, put
-- behind an ELF image gives back `code`, if the whole file is below 2 GiB, and memory for the code
-- can be had and be protected.
pub load_vcode-compile_file :
    (s : System) (image code : List ℕ) (k_lo : ℕ)
    → (let elf = 0x7f ∷ 0x45 ∷ 0x4c ∷ 0x46 ∷ image in IsFile s (elf ++ compile_file code k_lo))
    → 12 + length image + length code < 2 ^ 31
    → k_lo < 2 ^ 32
    → s.has_memory (length code) ≡ true
    → s.protects (length code) ≡ true
    → load_vcode s ≡ ok code
unfolding load_vcode compile_file
load_vcode-compile_file s image code k_lo file small hk memory protect =
    let n = length code in
    let elf = 0x7f ∷ 0x45 ∷ 0x4c ∷ 0x46 ∷ image in
    let tail = cipher_len n k_lo in
    let at_code : ℕ = 4 + length image in
    let total : length (elf ++ (code ++ tail)) ≡ at_code + n + 8 = omega (
      arith,
      length-append image (code ++ tail),
      length-append code tail,
      length-cipher_len n k_lo,
    ) in
    let (e_lo, e_hi) = length_words n k_lo (omega arith) hk in
    rw
      (
        self_path-self_exe s file.sse,
        file.opens,
        seek-ok (u32 s.size) (at_code + n + 8) (omega (arith, file.size)) (omega arith),
        seek-ok (sub32 (at_code + n + 8) 8) (at_code + n) (omega arith) (omega arith),
        file.read (at_code + n) 8 (omega arith),
        drop_second (at_code + n) elf code tail (omega arith),
        take-cipher_len n k_lo,
        e_lo,
        e_hi,
        file.read 0 4 (omega arith),
        elf_word,
        decrypt_length-cipher n k_lo (omega arith) hk,
        memory,
        seek-ok (sub32 (sub32 (at_code + n + 8) 8) n) at_code (omega arith) (omega arith),
        protect,
        file.read at_code n (omega arith),
        drop_first at_code elf (code ++ tail) (omega arith),
        take-append code tail,
      )
      (ap ok (mapped-all code))
