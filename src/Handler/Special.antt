-- ===== src/Handler/Special.antt =====
-- SWAP, REV, PACKHI, PACKLO, ROL and ROR.
pub mod Swap
pub mod Rotate
pub mod Rev
use weeper_vm.Base.{
  ℕ, zero, suc, ◌+◌, ◌-◌, ◌*◌, ◌%◌, bit_and, bit_or, Bool, true, false, Run, ok, ◌>>=◌, u32, ◌<<<◌,
  ◌>>>◌, ◌==◌,
}
use weeper_vm.Machine.{Machine}
use weeper_vm.Memory.{v_byte, v_short, v_int}
use weeper_vm.Operand.{Operand, get_operand_data}
use weeper_vm.Handler.Arith.{mod32, shl32, shr32}
use weeper_vm.Handler.Write.{write_back}

-- `-(b) & k`
abbrev pub select : Bool → ℕ → ℕ
select true k = k
select false k = 0

-- `-(v == BYTE) & a | -(v == SHORT) & b | -(v == INT) & c`
unfoldable pub by_size : ℕ → ℕ → ℕ → ℕ → ℕ
by_size v a b c =
    bit_or (bit_or (select (v == v_byte) a) (select (v == v_short) b)) (select (v == v_int) c)

-- The number of bits of one half of a value of size `v`.
unfoldable pub half_width : ℕ → ℕ
half_width v = v * 4 + select (v == v_int) 4

-- The mask of the high half.
unfoldable pub high_mask : ℕ → ℕ
high_mask v = by_size v 0xf0 0xff00 0xffff0000

unfoldable pub low_mask : ℕ → ℕ
low_mask v = by_size v 0xf 0xff 0xffff

unfoldable pub swap_halves : ℕ → ℕ → ℕ
swap_halves v x =
    let half = half_width v in
    let mask = high_mask v in
    bit_or (bit_and x mask >>> half) (u32 (bit_and x (mask >>> half) <<< half))

unfoldable pub handle_swap : Machine → Operand → Operand → Run Machine
handle_swap m op1 op2 = do
  src ← get_operand_data m 0xe5 op2
  write_back m op1 op1.v op1.v (swap_halves op2.v src) 0xd9

-- The number of bits of a value of size `v`.
unfoldable pub bit_width : ℕ → ℕ
bit_width v = by_size v 8 16 32

-- The loop of REV, with the rounds that are left.
unfoldable pub rev_rounds : ℕ → ℕ → ℕ → ℕ
rev_rounds zero src rev = rev
rev_rounds (suc left) src rev = rev_rounds left (src >>> 1) (bit_or (u32 (rev <<< 1)) (src % 2))

unfoldable pub handle_rev : Machine → Operand → Operand → Run Machine
handle_rev m op1 op2 = do
  src ← get_operand_data m 0x13 op2
  write_back m op1 op1.v op1.v (rev_rounds (bit_width op2.v) src 0) 0x52

unfoldable pub pack_hi : ℕ → ℕ → ℕ → ℕ
pack_hi v dst src = bit_or (bit_and dst (high_mask v)) (bit_and src (high_mask v) >>> half_width v)

unfoldable pub pack_lo : ℕ → ℕ → ℕ → ℕ
pack_lo v dst src =
    bit_or (bit_and dst (low_mask v)) (u32 (bit_and src (low_mask v) <<< half_width v))

-- `op1->v` is set to `op2->v` for the read and the expansion; the write takes the size that it had.
unfoldable pub handle_packhi : Machine → Operand → Operand → Run Machine
handle_packhi m op1 op2 = do
  src ← get_operand_data m 0x4e op2
  dst ← get_operand_data m 0xa3 (record op1 { v = op2.v })
  write_back m op1 op2.v op1.v (pack_hi op2.v dst src) 0x3f

unfoldable pub handle_packlo : Machine → Operand → Operand → Run Machine
handle_packlo m op1 op2 = do
  src ← get_operand_data m 0x4e op2
  dst ← get_operand_data m 0xa3 (record op1 { v = op2.v })
  write_back m op1 op2.v op1.v (pack_lo op2.v dst src) 0x3f

-- `(val << rot) | (val >> (width - rot))`
unfoldable pub rotate_left : ℕ → ℕ → ℕ → Run ℕ
rotate_left width val rot = do hi ← shl32 val rot; lo ← shr32 val (width - rot); ok (bit_or hi lo)

unfoldable pub rotate_right : ℕ → ℕ → ℕ → Run ℕ
rotate_right width val rot = do lo ← shr32 val rot; hi ← shl32 val (width - rot); ok (bit_or lo hi)

unfoldable pub handle_rol : Machine → Operand → Operand → Run Machine
handle_rol m op1 op2 = do
  n ← get_operand_data m 0x74 op2
  rot ← mod32 n (bit_width op1.v)
  val ← get_operand_data m 0x02 op1
  res ← rotate_left (bit_width op1.v) val rot
  write_back m op1 op1.v op1.v res 0x4b

unfoldable pub handle_ror : Machine → Operand → Operand → Run Machine
handle_ror m op1 op2 = do
  n ← get_operand_data m 0xa2 op2
  rot ← mod32 n (bit_width op1.v)
  val ← get_operand_data m 0x7a op1
  res ← rotate_right (bit_width op1.v) val rot
  write_back m op1 op1.v op1.v res 0x4b
