-- ===== src/Emulate/Decode/Header.antt =====
-- Compiler/WeeperVM_compile.py: the header of an instruction, and that the parsing of `fetch` and `decode` undo it.
use weeper_vm.Base.{
  ℕ, ◌+◌, ◌*◌, ◌/◌, ◌%◌, ◌-◌, ◌<◌, ◌≡◌, bit_and, bit_or, bit_xor, arith, ◌<<<◌, ◌==◌, if◌then◌else◌,
  true, ==_iff, refl, ◌∙◌,
}
use weeper_vm.Base.Table.{every_below, every_below-lt}
use weeper_vm.Base.Bits.{and_low, and_above, or_join}
use weeper_vm.Operand.{Operand}
use weeper_vm.Emulate.Decode.{parse_header, decode_opcode, decode}

-- `opcode_r` for the left half `l`, the cipher `o` and the opcode `c`. Python's `~x & 0b11111` is
-- 31 less the low five bits.
unfoldable pub compile_opcode_r : ℕ → ℕ → ℕ → ℕ
compile_opcode_r l o c =
    if o == 0
    then bit_and (bit_xor l c) 0b11111
    else if o == 1
    then 31 - bit_and (bit_xor l c) 0b11111
    else if o == 2
    then bit_and (bit_xor (31 - l) c) 0b11111
    else 31 - bit_and (bit_xor l (31 - c)) 0b11111

-- An operand as the compiler passes it on: type, size, length less one.
pub record Spec : Type 0 where
  pub t : ℕ
  pub v : ℕ
  pub l : ℕ

unfoldable pub compile_header : (l o r : ℕ) → Spec → Spec → ℕ
compile_header l o r p q =
    let h0 = l <<< 19 in
    let h1 = bit_or h0 (bit_or (bit_or (p.t <<< 17) (p.v <<< 15)) (p.l <<< 13)) in
    let h2 = bit_or h1 (o <<< 11) in
    let h3 = bit_or h2 (bit_or (bit_or (q.t <<< 9) (q.v <<< 7)) (q.l <<< 5)) in bit_or h3 (r <<< 0)

-- The halves and the cipher give the opcode back, for each of their values.
opcode_table :
    every_below 4 (λ o.
      every_below 32 (λ l. every_below 32 (λ c. decode_opcode o l (compile_opcode_r l o c) == c)))
    ≡ true
unfolding every_below decode_opcode compile_opcode_r
opcode_table = refl

decode_opcode-compile :
    (l o c : ℕ) → l < 32 → o < 4 → c < 32 → decode_opcode o l (compile_opcode_r l o c) ≡ c
decode_opcode-compile l o c hl ho hc =
    (==_iff _ c).0
      (every_below-lt 32 _ c (every_below-lt 32 _ l (every_below-lt 4 _ o opcode_table ho) hl) hc)

pub compile_opcode_r-lt : (l o c : ℕ) → compile_opcode_r l o c < 32
unfolding compile_opcode_r
compile_opcode_r-lt l o c = ground (arith, and_low 5 (bit_xor l c), and_low 5 (bit_xor (31 - l) c))

-- Every field is within its bits.
abbrev pub IsSpec : Spec → Type 0
IsSpec p = (p.t < 4) × (p.v < 4) × (p.l < 4)

pub header_sum :
    (l o r : ℕ) (p q : Spec)
    → l < 32
    → o < 4
    → r < 32
    → IsSpec p
    → IsSpec q
    → compile_header l o r p q
      ≡ l * 524288
        + p.t * 131072
        + p.v * 32768
        + p.l * 8192
        + o * 2048
        + q.t * 512
        + q.v * 128
        + q.l * 32
        + r
unfolding compile_header
header_sum l o r p q hl ho hr hp hq = ground (
  arith,
  or_join 17 p.t (p.v * 32768) (omega arith),
  or_join 15 (p.t * 4 + p.v) (p.l * 8192) (omega arith),
  or_join 19 l (p.t * 131072 + p.v * 32768 + p.l * 8192) (omega arith),
  or_join 13 (l * 64 + p.t * 16 + p.v * 4 + p.l) (o * 2048) (omega arith),
  or_join 9 q.t (q.v * 128) (omega arith),
  or_join 7 (q.t * 4 + q.v) (q.l * 32) (omega arith),
  or_join 11 (l * 256 + p.t * 64 + p.v * 16 + p.l * 4 + o) (q.t * 512 + q.v * 128 + q.l * 32)
      (omega arith),
  or_join 5 (l * 16384 + p.t * 4096 + p.v * 1024 + p.l * 256 + o * 64 + q.t * 16 + q.v * 4 + q.l) r
      (omega arith),
)

-- The masks and shifts of `fetch` as remainders and quotients.
parse_header-eq :
    (b0 b1 b2 : ℕ)
    → parse_header b0 b1 b2 ≡ record {
      opcode_l = b0 / 8 % 32;
      op1_t = b0 / 2 % 4;
      op2_v = b1 % 2 * 2 + b2 / 128 % 2;
      op1_l = b1 / 32 % 4;
      op2_t = b1 / 2 % 4;
      opcode_r = b2 % 32;
      op1_v = b0 % 2 * 2 + b1 / 128 % 2;
      xor_t = b1 / 8 % 4;
      op2_l = b2 / 32 % 4;
    }
unfolding parse_header
parse_header-eq b0 b1 b2 = ground (
  arith,
  and_above 3 b0 31,
  and_low 5 (b0 / 8),
  and_above 1 b0 3,
  and_low 2 (b0 / 2),
  and_low 1 b1,
  and_above 7 b2 1,
  and_low 1 (b2 / 128),
  or_join 1 (b1 % 2) (b2 / 128 % 2) (omega arith),
  and_above 5 b1 3,
  and_low 2 (b1 / 32),
  and_above 1 b1 3,
  and_low 2 (b1 / 2),
  and_low 5 b2,
  and_low 1 b0,
  and_above 7 b1 1,
  and_low 1 (b1 / 128),
  or_join 1 (b0 % 2) (b1 / 128 % 2) (omega arith),
  and_above 3 b1 3,
  and_low 2 (b1 / 8),
  and_above 5 b2 3,
  and_low 2 (b2 / 32),
)

-- The bytes of the sum give every field back.
parse_sum :
    (h l o r : ℕ) (p q : Spec)
    → l < 32
    → o < 4
    → r < 32
    → IsSpec p
    → IsSpec q
    → h
      ≡ l * 524288
        + p.t * 131072
        + p.v * 32768
        + p.l * 8192
        + o * 2048
        + q.t * 512
        + q.v * 128
        + q.l * 32
        + r
    → parse_header (h / 65536) (h / 256 % 256) (h % 256) ≡ record {
      opcode_l = l;
      op1_t = p.t;
      op2_v = q.v;
      op1_l = p.l;
      op2_t = q.t;
      opcode_r = r;
      op1_v = p.v;
      xor_t = o;
      op2_l = q.l;
    }
parse_sum h l o r p q hl ho hr hp hq e =
    parse_header-eq (h / 65536) (h / 256 % 256) (h % 256) ∙ ground arith

-- The operand that the machine reads for what the compiler passed on.
abbrev pub operand_of : Spec → ℕ → Operand
operand_of p at = record { t = p.t; v = p.v; l = p.l + 1; at = at }

-- Decoding undoes compiling: for every left half and cipher that the compiler may draw, every
-- opcode of five bits and all operands whose type, size and length fit two bits each, the three
-- bytes of the compiled header are parsed and decoded as that opcode and those operands, the
-- first operand's bytes right behind the header and the second's behind those.
pub decode-compile_header :
    (vip l o c : ℕ) (p q : Spec)
    → l < 32
    → o < 4
    → c < 32
    → IsSpec p
    → IsSpec q
    → (let h = compile_header l o (compile_opcode_r l o c) p q in
        decode vip (parse_header (h / 65536) (h / 256 % 256) (h % 256)) ≡ record {
          opcode = c;
          op1 = operand_of p (vip + 3);
          op2 = operand_of q (vip + 3 + (p.l + 1));
        })
unfolding decode
decode-compile_header vip l o c p q hl ho hc hp hq =
    let r = compile_opcode_r l o c in
    let hr : r < 32 = compile_opcode_r-lt l o c in
    rw (
      parse_sum (compile_header l o r p q) l o r p q hl ho hr hp hq
          (header_sum l o r p q hl ho hr hp hq),
      decode_opcode-compile l o c hl ho hc,
    )
