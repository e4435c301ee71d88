-- ===== src/Emulate/Decode/Fields.antt =====
-- The values of the fields of a header.
use weeper_vm.Base.{
  ℕ, ◌+◌, ◌<◌, ◌≤◌, ◌≡◌, bit_and, arith, ◌<<<◌, ◌>>>◌, true, refl, zero, suc, List, [], ◌∷◌, All,
  length, get_elem?, some, ltb, ok, ◌&&◌,
}
use weeper_vm.Base.Table.{every_below, every_below-lt}
use weeper_vm.Base.Bits.{and_low, or-lt}
use weeper_vm.Machine.{Machine, vcode_at}
use weeper_vm.Invariant.{IsWf, IsByte}
use weeper_vm.Emulate.Decode.{InsnHdr, parse_header, fetch, Decoded, decode_opcode, decode}

-- The fields lie in the ranges of the structure and of its enumerations.
abbrev pub IsHdr : InsnHdr → Type 0
IsHdr h =
    (h.opcode_l < 32)
    × (h.opcode_r < 32)
    × (h.xor_t < 4)
    × (h.op1_t < 4)
    × (h.op1_v < 4)
    × (h.op1_l < 4)
    × (h.op2_t < 4)
    × (h.op2_v < 4)
    × (h.op2_l < 4)

table0 :
    every_below 256 (λ b.
      ltb (bit_and b 0b11111000 >>> 3) 32
      && ltb (bit_and b 0b00000110 >>> 1) 4
      && ltb (bit_and b 1 <<< 1) 4)
    ≡ true
unfolding every_below
table0 = refl

table1 :
    every_below 256 (λ b.
      ltb (bit_and b 0b01100000 >>> 5) 4
      && ltb (bit_and b 0b00011000 >>> 3) 4
      && ltb (bit_and b 0b10000000 >>> 7) 4)
    ≡ true
unfolding every_below
table1 = refl

three : (a m b n c k : ℕ) → (ltb a m && ltb b n && ltb c k) ≡ true → (a < m) × (b < n) × (c < k)
three a m b n c k h = ground arith

byte_at :
    (xs : List ℕ) (i : ℕ)
    → All IsByte xs
    → i < length xs
    → (b : ℕ) × (get_elem? xs i ≡ some b) × (b < 256)
byte_at [] i h lt = absurd (omega (arith, lt))
byte_at (x ∷ xs) zero h lt = (x, refl, h.0)
byte_at (x ∷ xs) (suc i) h lt = byte_at xs i h.1 (omega (arith, lt))

parse_header-IsHdr : (b0 b1 b2 : ℕ) → b0 < 256 → b1 < 256 → b2 < 256 → IsHdr (parse_header b0 b1 b2)
unfolding parse_header
parse_header-IsHdr b0 b1 b2 h0 h1 h2 =
    let right : bit_and b2 0b00011111 < 32 = omega (arith, and_low 5 b2) in
    let (op_l, t1, v1) = three _ _ _ _ _ _ (every_below-lt 256 _ b0 table0 h0) in
    let (_, t2, v2) = three _ _ _ _ _ _ (every_below-lt 256 _ b1 table0 h1) in
    let (l1, xor, v1') = three _ _ _ _ _ _ (every_below-lt 256 _ b1 table1 h1) in
    let (l2, _, v2') = three _ _ _ _ _ _ (every_below-lt 256 _ b2 table1 h2) in
    (op_l, right, xor, t1, or-lt 2 _ _ v1 v1', l1, t2, or-lt 2 _ _ v2 v2', l2)

-- What `decode` gives lies in the ranges, and its operands follow the header, one behind the other.
abbrev pub IsDecoded : ℕ → Decoded → Type 0
IsDecoded vip d =
    (d.opcode < 32)
    × (d.op1.t < 4)
    × (d.op1.v < 4)
    × (1 ≤ d.op1.l)
    × (d.op1.l ≤ 4)
    × (d.op1.at ≡ vip + 3)
    × (d.op2.t < 4)
    × (d.op2.v < 4)
    × (1 ≤ d.op2.l)
    × (d.op2.l ≤ 4)
    × (d.op2.at ≡ d.op1.at + d.op1.l)

opcode-lt : (x l r : ℕ) → decode_opcode x l r < 32
unfolding decode_opcode
opcode-lt x l r = omega (arith, and_low 5 _)

decode-IsDecoded : (vip : ℕ) (h : InsnHdr) → IsHdr h → IsDecoded vip (decode vip h)
unfolding decode
decode-IsDecoded vip h (_, _, _, t1, v1, l1, t2, v2, l2) = (
  opcode-lt h.xor_t h.opcode_l h.opcode_r,
  t1,
  v1,
  omega arith,
  omega (arith, l1),
  refl,
  t2,
  v2,
  omega arith,
  omega (arith, l2),
  refl,
)

-- Fetching is total inside the code, and well-typed. In a well-formed state with three bytes of code
-- from `vip` on, `fetch` returns a header all of whose fields lie in the ranges of their bit-fields
-- and enumerations; and `decode` makes of it an opcode below 32 and two operands of a type and a
-- size that there are, of 1 to 4 bytes each, the first behind the header and the second behind the
-- first.
pub fetch-IsHdr :
    (m : Machine) (vip : ℕ)
    → IsWf m
    → vip + 3 ≤ length m.vcode
    → (h : InsnHdr) × (fetch m vip ≡ ok h) × IsHdr h × IsDecoded vip (decode vip h)
unfolding fetch vcode_at
fetch-IsHdr m vip wf inside =
    let (b0, e0, h0) = byte_at m.vcode vip wf.code_bytes (omega (arith, inside)) in
    let (b1, e1, h1) = byte_at m.vcode (vip + 1) wf.code_bytes (omega (arith, inside)) in
    let (b2, e2, h2) = byte_at m.vcode (vip + 2) wf.code_bytes (omega (arith, inside)) in
    let typed = parse_header-IsHdr b0 b1 b2 h0 h1 h2 in
    (
      parse_header b0 b1 b2,
      rw (e0, e1, e2) refl,
      typed,
      decode-IsDecoded vip (parse_header b0 b1 b2) typed,
    )
