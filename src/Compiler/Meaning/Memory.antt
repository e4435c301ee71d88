-- ===== src/Compiler/Meaning/Memory.antt =====
-- Addresses, and the values at them.
use weeper_vm.Base.{
  ℕ, zero, suc, ◌+◌, ◌*◌, ◌/◌, ◌%◌, ◌^◌, ◌≤◌, ◌<◌, ◌≡◌, ap, arith, bit_or, bit_and, List, ◌∷◌, ◌++◌,
  ok, ◌<<<◌, ◌>>>◌, u32, not, true, false, ◌==◌,
}
use weeper_vm.Base.Bits.{or_join, and_above, and_low, zero-and}
use weeper_vm.Memory.{post_v_truncation}
use weeper_vm.Machine.{Machine}
use weeper_vm.Operand.{
  Operand, operand_byte, register_offset, immediate_disp, immediate_offset, calculate_memory_offset,
}
use weeper_vm.Handler.Arith.Reg.{IsSize, span}
use weeper_vm.Compiler.{big_bytes}
use weeper_vm.Compiler.Bytes.{BytesAt, operand_byte-at}
use weeper_vm.Compiler.Meaning.{part}
use weeper_vm.Compiler.Meaning.Immediate.{post_v_truncation-eq}
use weeper_vm.Compiler.Meaning.Register.{vreg_at-ok}

-- The number that a sum of two registers is packed into.
abbrev pub sum_code : (bv br dv dr : ℕ) → ℕ
sum_code bv br dv dr = 49152 + bv * 4096 + dv * 1024 + br * 64 + dr * 4

-- The fields of the two bytes.
module _ (d0 d1 bv br dv dr : ℕ) (hbv : bv < 4) (hbr : br < 16) (hdv : dv < 4) (hdr : dr < 16)
    (e0 : d0 ≡ 192 + bv * 16 + dv * 4 + br / 4) (e1 : d1 ≡ br % 4 * 64 + dr * 4) where
  sum_marked : not (bit_and d0 0b01000000 == 0) ≡ true
  sum_marked = ground (arith, and_above 6 d0 1, and_low 1 (d0 / 64))

  sum_base : bit_or (bit_and d0 0x03 <<< 2) (bit_and d1 0xc0 >>> 6) ≡ br
  sum_base =
      ground
        (arith, and_low 2 d0, and_above 6 d1 3, and_low 2 (d1 / 64), or_join 2 (br / 4) (br % 4))

  sum_disp : bit_and d1 0x3c >>> 2 ≡ dr
  sum_disp = omega (arith, and_above 2 d1 15, and_low 4 (d1 / 4))

  sum_base_size : bit_and d0 0x30 >>> 4 ≡ bv
  sum_base_size = omega (arith, and_above 4 d0 3, and_low 2 (d0 / 16))

  sum_disp_size : bit_and d0 0x0c >>> 2 ≡ dv
  sum_disp_size = omega (arith, and_above 2 d0 3, and_low 2 (d0 / 4))

two_registers :
    (m : Machine) (op : Operand) (d0 d1 bv br dv dr : ℕ)
    → IsSize bv
    → br < 16
    → IsSize dv
    → dr < 16
    → d0 ≡ 192 + bv * 16 + dv * 4 + br / 4
    → d1 ≡ br % 4 * 64 + dr * 4
    → operand_byte m op 0 ≡ ok d0
    → operand_byte m op 1 ≡ ok d1
    → calculate_memory_offset m op ≡ ok (u32 (part m bv br + part m dv dr))
unfolding calculate_memory_offset register_offset
two_registers m op d0 d1 bv br dv dr sb hb sd hd e0 e1 c0 c1 =
    let kb : bv < 4 = omega arith in
    let kd : dv < 4 = omega arith in
    rw
      (
        c0,
        sum_marked d0 d1 bv br dv dr kb hb kd hd e0 e1,
        c1,
        sum_base d0 d1 bv br dv dr kb hb kd hd e0 e1,
        sum_disp d0 d1 bv br dv dr kb hb kd hd e0 e1,
        sum_base_size d0 d1 bv br dv dr kb hb kd hd e0 e1,
        sum_disp_size d0 d1 bv br dv dr kb hb kd hd e0 e1,
        vreg_at-ok m br hb,
        vreg_at-ok m dr hd,
      )
      (ap ok (cut_sum (m.vregs br) (m.vregs dr)))
  where
    cut_sum :
        (x y : ℕ)
        → u32 (post_v_truncation x bv + post_v_truncation y dv) ≡ u32 (x % span bv + y % span dv)
    cut_sum x y = rw (post_v_truncation-eq x bv sb, post_v_truncation-eq y dv sd)

-- The address of a sum of two registers.
pub offset-sum :
    (m : Machine) (op : Operand) (bv br dv dr : ℕ) (rest : List ℕ)
    → IsSize bv
    → br < 16
    → IsSize dv
    → dr < 16
    → BytesAt m op.at (big_bytes 2 (sum_code bv br dv dr) ++ rest)
    → calculate_memory_offset m op ≡ ok (u32 (part m bv br + part m dv dr))
offset-sum m op bv br dv dr rest sb hb sd hd h =
    let ys = big_bytes 2 (sum_code bv br dv dr) ++ rest in
    two_registers m op _ _ bv br dv dr sb hb sd hd (omega arith) (omega arith)
      (operand_byte-at m op ys 0 h (omega arith)) (operand_byte-at m op ys 1 h (omega arith))

-- The displacement behind a header byte.
immediate_disp-at :
    (m : Machine) (op : Operand) (k head d : ℕ) (rest : List ℕ)
    → op.l ≡ suc k
    → 1 ≤ k
    → k ≤ 3
    → d < 256 ^ k
    → BytesAt m op.at (head ∷ (big_bytes k d ++ rest))
    → immediate_disp m op ≡ ok d
unfolding immediate_disp
immediate_disp-at m op zero head d rest e lo hi lt h = absurd (omega arith)
immediate_disp-at m op (suc zero) head d rest e lo hi lt h =
    let ys = head ∷ (big_bytes 1 d ++ rest) in
    simp (e, operand_byte-at m op ys 1 h (omega arith)) (ap ok (omega arith))
immediate_disp-at m op (suc (suc zero)) head d rest e lo hi lt h =
    let ys = head ∷ (big_bytes 2 d ++ rest) in
    simp (e, operand_byte-at m op ys 1 h (omega arith), operand_byte-at m op ys 2 h (omega arith))
      (ap ok (ground (arith, or_join 8 (d / 256 % 256) (d / 1 % 256))))
immediate_disp-at m op (suc (suc (suc zero))) head d rest e lo hi lt h =
    let ys = head ∷ (big_bytes 3 d ++ rest) in
    simp
      (
        e,
        operand_byte-at m op ys 1 h (omega arith),
        operand_byte-at m op ys 2 h (omega arith),
        operand_byte-at m op ys 3 h (omega arith),
      )
      (ap ok (
        ground
          (arith, or_join 16 (d / 65536) (d / 256 % 256 * 256), or_join 8 (d / 256) (d % 256))))
immediate_disp-at m op (suc (suc (suc (suc k)))) head d rest e lo hi lt h = absurd (omega arith)

-- The fields of the header byte of a base register.
module _ (head bv br : ℕ) (hbv : bv < 4) (hbr : br < 16) (e : head ≡ 128 + bv * 16 + br) where
  base_plain : not (bit_and head 0b01000000 == 0) ≡ false
  base_plain = ground (arith, and_above 6 head 1, and_low 1 (head / 64))

  base_marked : not (bit_and head 0b10000000 == 0) ≡ true
  base_marked = ground (arith, and_above 7 head 1, and_low 1 (head / 128))

  base_register : bit_and head 0x0f ≡ br
  base_register = omega (arith, and_low 4 head)

  base_size : bit_and head 0x30 >>> 4 ≡ bv
  base_size = omega (arith, and_above 4 head 3, and_low 2 (head / 16))

-- The address of a register and a displacement.
pub offset-disp :
    (m : Machine) (op : Operand) (k head bv br d : ℕ) (rest : List ℕ)
    → IsSize bv
    → br < 16
    → head ≡ 128 + bv * 16 + br
    → op.l ≡ suc k
    → 1 ≤ k
    → k ≤ 3
    → d < 256 ^ k
    → BytesAt m op.at (head ∷ (big_bytes k d ++ rest))
    → calculate_memory_offset m op ≡ ok (u32 (part m bv br + d))
unfolding calculate_memory_offset immediate_offset
offset-disp m op k head bv br d rest sb hb eh el lo hi lt h =
    let kb : bv < 4 = omega arith in
    rw (
      operand_byte-at m op (head ∷ (big_bytes k d ++ rest)) 0 h (omega arith),
      base_plain head bv br kb hb eh,
      immediate_disp-at m op k head d rest el lo hi lt h,
      base_marked head bv br kb hb eh,
      base_register head bv br kb hb eh,
      vreg_at-ok m br hb,
      base_size head bv br kb hb eh,
      post_v_truncation-eq (m.vregs br) bv sb,
    )

-- The address that is a number.
pub offset-at :
    (m : Machine) (op : Operand) (k a : ℕ) (rest : List ℕ)
    → op.l ≡ suc k
    → 1 ≤ k
    → k ≤ 3
    → a < 256 ^ k
    → BytesAt m op.at (0 ∷ (big_bytes k a ++ rest))
    → calculate_memory_offset m op ≡ ok (u32 a)
unfolding calculate_memory_offset immediate_offset
offset-at m op k a rest el lo hi lt h =
    rw
      (
        operand_byte-at m op (0 ∷ (big_bytes k a ++ rest)) 0 h (omega arith),
        zero-and 0b01000000,
        immediate_disp-at m op k 0 a rest el lo hi lt h,
      )
      (ap ok (omega arith))
