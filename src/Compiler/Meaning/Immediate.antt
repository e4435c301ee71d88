-- ===== src/Compiler/Meaning/Immediate.antt =====
-- Immediates.
use weeper_vm.Base.{
  ℕ, zero, suc, ◌+◌, ◌*◌, ◌/◌, ◌%◌, ◌^◌, ◌≤◌, ◌<◌, ◌≡◌, refl, ap, arith, bit_or, bit_and, List, ◌∷◌,
  ◌++◌, ok, ◌<<<◌, ◌>>>◌,
}
use weeper_vm.Base.Bits.{or_join, and_above, and_low}
use weeper_vm.Memory.{post_v_truncation}
use weeper_vm.Memory.Mask.{and-0xff, and-0xffff, and-0xffffffff}
use weeper_vm.Machine.{Machine}
use weeper_vm.Operand.{Operand, immediate_word, get_operand_data_imm}
use weeper_vm.Handler.Arith.Reg.{IsSize, span}
use weeper_vm.Compiler.{big_bytes}
use weeper_vm.Compiler.Bytes.{BytesAt, operand_byte-at}

pub post_v_truncation-eq : (x v : ℕ) → IsSize v → post_v_truncation x v ≡ x % span v
unfolding post_v_truncation
post_v_truncation-eq x v h = ground (arith, and-0xff x, and-0xffff x, and-0xffffffff x)

low_masked :
    (x y : ℕ)
    → x < 256 ^ 3
    → y < 256
    → bit_and
          (bit_or
            (bit_or
              (bit_or ((x / 65536 % 256) <<< 24) ((x / 256 % 256) <<< 16))
              ((x / 1 % 256) <<< 8))
            y)
          0xffffff00
        >>> 8
      ≡ x
low_masked x y lt yb = ground (
  arith,
  or_join 24 (x / 65536 % 256) (x / 256 % 256 * 65536),
  or_join 16 (x / 256) (x % 256 * 256),
  or_join 8 x y,
  and_above 8 (x * 256 + y) 0xffffff,
  and_low 24 x,
)

all_four :
    (x : ℕ)
    → x < 256 ^ 4
    → bit_or
        (bit_or
          (bit_or ((x / 16777216 % 256) <<< 24) ((x / 65536 % 256) <<< 16))
          ((x / 256 % 256) <<< 8))
        (x / 1 % 256)
      ≡ x
all_four x lt = ground (
  arith,
  or_join 24 (x / 16777216) (x / 65536 % 256 * 65536),
  or_join 16 (x / 65536) (x / 256 % 256 * 256),
  or_join 8 (x / 256) (x % 256),
)

-- `n` bytes give the number back; the reader of three bytes looks at a fourth, which is `y`.
immediate_word-at :
    (m : Machine) (op : Operand) (n x y : ℕ) (rest : List ℕ)
    → op.l ≡ n
    → 1 ≤ n
    → n ≤ 4
    → x < 256 ^ n
    → y < 256
    → BytesAt m op.at (big_bytes n x ++ (y ∷ rest))
    → immediate_word m op ≡ ok x
unfolding immediate_word
immediate_word-at m op zero x y rest e lo hi lt yb h = absurd (omega arith)
immediate_word-at m op (suc zero) x y rest e lo hi lt yb h =
    simp (e, operand_byte-at m op (big_bytes 1 x ++ (y ∷ rest)) 0 h (omega arith))
      (ap ok (omega arith))
immediate_word-at m op (suc (suc zero)) x y rest e lo hi lt yb h =
    simp
      (
        e,
        operand_byte-at m op (big_bytes 2 x ++ (y ∷ rest)) 0 h (omega arith),
        operand_byte-at m op (big_bytes 2 x ++ (y ∷ rest)) 1 h (omega arith),
      )
      (ap ok (ground (arith, or_join 8 (x / 256 % 256) (x / 1 % 256))))
immediate_word-at m op (suc (suc (suc zero))) x y rest e lo hi lt yb h =
    let ys = big_bytes 3 x ++ (y ∷ rest) in
    simp
      (
        e,
        operand_byte-at m op ys 0 h (omega arith),
        operand_byte-at m op ys 1 h (omega arith),
        operand_byte-at m op ys 2 h (omega arith),
        operand_byte-at m op ys 3 h (omega arith),
      )
      (ap ok (low_masked x y lt yb))
immediate_word-at m op (suc (suc (suc (suc zero)))) x y rest e lo hi lt yb h =
    let ys = big_bytes 4 x ++ (y ∷ rest) in
    simp
      (
        e,
        operand_byte-at m op ys 0 h (omega arith),
        operand_byte-at m op ys 1 h (omega arith),
        operand_byte-at m op ys 2 h (omega arith),
        operand_byte-at m op ys 3 h (omega arith),
      )
      (ap ok (all_four x lt))
immediate_word-at m op (suc (suc (suc (suc (suc n))))) x y rest e lo hi lt yb h =
    absurd (omega arith)

-- An immediate is read as its number, cut to its size.
pub get_operand_data_imm-at :
    (m : Machine) (op : Operand) (x y : ℕ) (rest : List ℕ)
    → IsSize op.v
    → 1 ≤ op.l
    → op.l ≤ 4
    → x < 256 ^ op.l
    → y < 256
    → BytesAt m op.at (big_bytes op.l x ++ (y ∷ rest))
    → get_operand_data_imm m op ≡ ok (x % span op.v)
unfolding get_operand_data_imm
get_operand_data_imm-at m op x y rest size lo hi lt yb h =
    rw (immediate_word-at m op op.l x y rest refl lo hi lt yb h)
      (ap ok (post_v_truncation-eq x op.v size))
