-- ===== src/Compiler.antt =====
-- Compiler/WeeperVM_compile.py: the operands and the instructions that it packs. The text of an
-- operand is split into its parts already; `none` is a call of `exit`, or an exception.
pub mod Length
pub mod Bytes
pub mod Meaning
pub mod Insn
pub mod Link
pub mod Program
use weeper_vm.Base.{
  ℕ, zero, suc, ◌+◌, ◌-◌, ◌*◌, ◌/◌, ◌%◌, ◌^◌, bit_or, bit_xor, Option, none, some, List, [], ◌∷◌,
  ◌++◌, ◌<<<◌, ltb, leb, not, ◌==◌, if◌then◌else◌, length, take,
}
use weeper_vm.Memory.{v_byte}
use weeper_vm.Operand.{op_none, op_reg, op_mem, op_imm}
use weeper_vm.Emulate.Decode.Header.{Spec, compile_opcode_r, compile_header}

-- An operand as the parsers return it: type, size, length less one, value.
pub record Parsed : Type 0 where
  pub t : ℕ
  pub v : ℕ
  pub l : ℕ
  pub x : ℕ

-- `int.bit_length`, with rounds that are never used up.
unfoldable pub bit_length_loop : ℕ → ℕ → ℕ
bit_length_loop zero x = 0
bit_length_loop (suc rounds) x =
    let rest = bit_length_loop rounds (x / 2) in if x == 0 then 0 else rest + 1

unfoldable pub bit_length : ℕ → ℕ
bit_length x = bit_length_loop x x

-- `(x.bit_length() + 7) // 8 or 1`
unfoldable pub byte_length : ℕ → ℕ
byte_length x = let n = (bit_length x + 7) / 8 in if n == 0 then 1 else n

-- What `parse_register` returns for a size and the number of a register.
unfoldable pub parse_register : ℕ → ℕ → Parsed
parse_register v r = record { t = op_reg; v = v; l = 0; x = r }

-- What `parse_immediate` returns for a size and a number.
unfoldable pub parse_immediate : ℕ → ℕ → Option Parsed
parse_immediate v x =
    let l = byte_length x in
    if ltb 4 l then none else some (record { t = op_imm; v = v; l = l - 1; x = x })

-- A register as the displacement.
unfoldable pub register_memory : ℕ → Parsed → Parsed → Parsed
register_memory v base disp =
    let x =
      bit_or (bit_or (bit_or (bit_or 0x3000 (base.v <<< 10)) (disp.v <<< 8)) (base.x <<< 4))
        disp.x in
    record { t = op_mem; v = v; l = 1; x = x <<< 2 }

-- An immediate as the displacement. The test before the shift is of `bit_length() + 7 // 8`, where
-- the quotient is 0.
unfoldable pub immediate_memory : ℕ → Parsed → Parsed → Option Parsed
immediate_memory v base disp =
    let bits = bit_length disp.x in
    let shl = if bits + 7 / 8 == 0 then 8 else (bits + 7) / 8 * 8 in
    let x = bit_or (bit_or (bit_or 0b10000000 (base.v <<< 4)) base.x <<< shl) disp.x in
    if ltb 20 bits then none else some (record { t = op_mem; v = v; l = byte_length x - 1; x = x })

-- A base and a displacement.
unfoldable pub compound_memory : ℕ → Parsed → Parsed → Option Parsed
compound_memory v base disp =
    if not (base.t == op_reg)
    then none
    else if disp.t == op_mem
    then none
    else if disp.t == op_reg
    then some (register_memory v base disp)
    else if disp.t == op_imm
    then immediate_memory v base disp
    else none

-- A register for a base has a displacement of 0 if there is none.
unfoldable pub spoofed : Parsed → Option Parsed → Option Parsed
spoofed base (some disp) = some disp
spoofed base none =
    if base.t == op_reg then some (record { t = op_imm; v = v_byte; l = 1; x = 0 }) else none

-- What `parse_memory` returns for a size and its parsed parts.
unfoldable pub parse_memory : ℕ → Parsed → Option Parsed → Option Parsed
parse_memory v base disp = elim (spoofed base disp) [
  | some d ↦ compound_memory v base d
  | none ↦
      if base.t == op_reg
      then none
      else if ltb 20 (bit_length base.x)
      then none
      else some (record { t = op_mem; v = v; l = base.l + 1; x = base.x })
]

-- The padding of a missing operand.
abbrev pub no_operand : Parsed
no_operand = record { t = op_none; v = 0; l = 0; x = 0 }

-- The `n` low bytes of a number, the highest first.
abbrev pub big_bytes : ℕ → ℕ → List ℕ
big_bytes zero x = []
big_bytes (suc n) x = (x / 256 ^ n % 256) ∷ big_bytes n x

-- `op[x].to_bytes(op[l]+1, 'big')`, which raises where the number does not fit, of an operand that
-- is there.
unfoldable pub operand_bytes : Parsed → Option (List ℕ)
operand_bytes p =
    if p.t == op_none
    then some []
    else if ltb p.x (256 ^ (p.l + 1))
    then some (big_bytes (p.l + 1) p.x)
    else none

abbrev pub spec_of : Parsed → Spec
spec_of p = record { t = p.t; v = p.v; l = p.l }

-- `packed`: the header, the operands, and three bytes for the address of the next instruction.
unfoldable pub pack : (l o c : ℕ) → Parsed → Parsed → Option (List ℕ)
pack l o c p q =
    let header = compile_header l o (compile_opcode_r l o c) (spec_of p) (spec_of q) in
    elim (operand_bytes p) [
      | none ↦ none
      | some a ↦ elim (operand_bytes q) [
        | none ↦ none
        | some b ↦ some (big_bytes 3 header ++ (a ++ (b ++ (0xff ∷ 0xff ∷ 0xff ∷ []))))
      ]
    ]

-- `(fallthrough ^ 0xDC2606).to_bytes(3, 'little')` of a number of 24 bits
abbrev pub little_3 : ℕ → List ℕ
little_3 x = (x % 256) ∷ (x / 256 % 256) ∷ (x / 65536) ∷ []

-- `packed[:-3]` with the address of the next instruction behind it
unfoldable pub correct_fallthrough : List ℕ → ℕ → List ℕ
correct_fallthrough packed fallthrough =
    take (length packed - 3) packed ++ little_3 (bit_xor fallthrough 0xdc2606)
