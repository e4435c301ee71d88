-- ===== src/Emulate/Decode.antt =====
-- VM/src/emulate.c: `fetch` and `decode`.
pub mod Header
pub mod Fields
use weeper_vm.Base.{
  ℕ, ◌+◌, bit_and, bit_or, bit_xor, Run, ok, ◌>>=◌, not8, ◌<<<◌, ◌>>>◌, ◌==◌, if◌then◌else◌,
}
use weeper_vm.Machine.{Machine, vcode_at}
use weeper_vm.Operand.{Operand}

-- WeeperInsnHdr
pub record InsnHdr : Type 0 where
  pub opcode_l : ℕ
  pub op1_t : ℕ
  pub op2_v : ℕ
  pub op1_l : ℕ
  pub op2_t : ℕ
  pub opcode_r : ℕ
  pub op1_v : ℕ
  pub xor_t : ℕ
  pub op2_l : ℕ

-- The fields of the three bytes of a header.
unfoldable pub parse_header : ℕ → ℕ → ℕ → InsnHdr
parse_header b0 b1 b2 = record {
  opcode_l = bit_and b0 0b11111000 >>> 3;
  op1_t = bit_and b0 0b00000110 >>> 1;
  op2_v = bit_or (bit_and b1 1 <<< 1) (bit_and b2 0b10000000 >>> 7);
  op1_l = bit_and b1 0b01100000 >>> 5;
  op2_t = bit_and b1 0b00000110 >>> 1;
  opcode_r = bit_and b2 0b00011111;
  op1_v = bit_or (bit_and b0 1 <<< 1) (bit_and b1 0b10000000 >>> 7);
  xor_t = bit_and b1 0b00011000 >>> 3;
  op2_l = bit_and b2 0b01100000 >>> 5;
}

unfoldable pub fetch : Machine → ℕ → Run InsnHdr
fetch m vip = do
  b0 ← vcode_at m vip
  b1 ← vcode_at m (vip + 1)
  b2 ← vcode_at m (vip + 2)
  ok (parse_header b0 b1 b2)

-- What `decode` returns and what it writes through its pointers.
pub record Decoded : Type 0 where
  pub opcode : ℕ
  pub op1 : Operand
  pub op2 : Operand

-- The opcode from its two halves. WEEPER_OPC_XOR_1 complements the right half, WEEPER_OPC_XOR_2 the
-- left, WEEPER_OPC_XOR_3 both.
unfoldable pub decode_opcode : (xor_t l r : ℕ) → ℕ
decode_opcode xor_t l r =
    let l1 = if xor_t == 3 then not8 l else l in
    let r1 = if xor_t == 1 then not8 r else r in
    let l2 = if xor_t == 2 then not8 l1 else l1 in
    let r2 = if xor_t == 3 then not8 r1 else r1 in bit_and (bit_xor r2 l2) 0x1f

unfoldable pub decode : ℕ → InsnHdr → Decoded
decode vip h = record {
  opcode = decode_opcode h.xor_t h.opcode_l h.opcode_r;
  op1 = record { t = h.op1_t; v = h.op1_v; l = h.op1_l + 1; at = vip + 3 };
  op2 = record { t = h.op2_t; v = h.op2_v; l = h.op2_l + 1; at = vip + 3 + (h.op1_l + 1) };
}
