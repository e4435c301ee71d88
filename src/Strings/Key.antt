-- ===== src/Strings/Key.antt =====
-- The key that decrypts the path.
use weeper_vm.Base.{
  ℕ, suc, ◌==◌, if◌then◌else◌, ◌+◌, ◌^◌, ◌<◌, ◌≡◌, refl, sym, ◌∙◌, ap, arith, Bool, true, false,
  List, [], ◌∷◌, bit_and, bit_xor, ◌>>>◌, ◌↔◌,
}
use weeper_vm.Base.Bits.{xor-lt, xor_cancel_left}
use weeper_vm.Memory.Mask.{and-0xff}
use weeper_vm.Machine.{Bytes}
use weeper_vm.Strings.{ror32, low_first, proc_self_exe, c_string}

-- "/proc/self/exe"
abbrev pub self_exe : List ℕ
self_exe =
    0x2f ∷ 0x70 ∷ 0x72 ∷ 0x6f ∷ 0x63 ∷ 0x2f ∷ 0x73 ∷ 0x65 ∷ 0x6c ∷ 0x66 ∷ 0x2f ∷ 0x65 ∷ 0x78 ∷ 0x65
    ∷ []

-- What the key gives.
pub decrypted : (buf : Bytes) → c_string 16 (proc_self_exe true buf 0x959e8e02) 0 ≡ self_exe
unfolding proc_self_exe low_first ror32
decrypted buf = refl

one_char :
    (b : Bool) (c x : ℕ) (cs xs : List ℕ)
    → (if b then [] else c ∷ cs) ≡ x ∷ xs
    → (c ≡ x) × (cs ≡ xs)
one_char true c x cs xs e = cc
one_char false c x cs xs e = (cc, cc)

first_char :
    (room : ℕ) (buf : Bytes) (i x : ℕ) (xs : List ℕ)
    → c_string (suc room) buf i ≡ x ∷ xs
    → (buf i ≡ x) × (c_string room buf (i + 1) ≡ xs)
first_char room buf i x xs e = one_char (buf i == 0) (buf i) x (c_string room buf (i + 1)) xs e

-- A word is known by its bytes.
word_of_bytes :
    (x : ℕ)
    → x < 2 ^ 32
    → bit_and (x >>> 0) 0xff ≡ 0x2f
    → bit_and (x >>> 8) 0xff ≡ 0x70
    → bit_and (x >>> 16) 0xff ≡ 0x72
    → bit_and (x >>> 24) 0xff ≡ 0x6f
    → x ≡ 0x6f72702f
word_of_bytes x h e0 e1 e2 e3 = omega (
  arith,
  e0,
  e1,
  e2,
  e3,
  and-0xff (x >>> 0),
  and-0xff (x >>> 8),
  and-0xff (x >>> 16),
  and-0xff (x >>> 24),
)

-- On a processor with SSE the key of `load_vcode`, and no other, decrypts the path of the program's
-- own file, whatever the buffer held before.
pub proc_self_exe-key :
    (buf : Bytes) (key : ℕ)
    → key < 2 ^ 32
    → (c_string 16 (proc_self_exe true buf key) 0 ≡ self_exe) ↔ (key ≡ 0x959e8e02)
unfolding proc_self_exe low_first ror32
proc_self_exe-key buf key h = (forward, λ e. rw e (decrypted buf))
  where
    forward : c_string 16 (proc_self_exe true buf key) 0 ≡ self_exe → key ≡ 0x959e8e02
    forward e =
        let (e0, r0) = first_char 15 (proc_self_exe true buf key) 0 0x2f _ e in
        let (e1, r1) = first_char 14 (proc_self_exe true buf key) 1 0x70 _ r0 in
        let (e2, r2) = first_char 13 (proc_self_exe true buf key) 2 0x72 _ r1 in
        let (e3, r3) = first_char 12 (proc_self_exe true buf key) 3 0x6f _ r2 in
        let same : bit_xor 0xfaecfe2d key ≡ 0x6f72702f =
          word_of_bytes (bit_xor 0xfaecfe2d key) (xor-lt 32 0xfaecfe2d key (omega arith) h) e0 e1 e2
            e3 in
        sym (xor_cancel_left 0xfaecfe2d key) ∙ ap (λ (n : ℕ). bit_xor 0xfaecfe2d n) same
