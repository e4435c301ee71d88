-- ===== src/Memory/Mask.antt =====
-- The masks of the truncation macros as remainders and multiples.
use weeper_vm.Base.{
  ℕ, ◌+◌, ◌*◌, ◌/◌, ◌%◌, ◌^◌, ◌<◌, ◌≡◌, bit_and, bit_or, bit_xor, arith, sub32, not32, ◌<<<◌, ◌>>>◌,
}
use weeper_vm.Base.Bits.{and_low, and_above, and_high, or_join, or_split, or-zero}
use weeper_vm.Memory.{writer_index}

pub and-0xff : (x : ℕ) → bit_and x 0xff ≡ x % 256
and-0xff x = and_low 8 x

pub and-0xffff : (x : ℕ) → bit_and x 0xffff ≡ x % 65536
and-0xffff x = and_low 16 x

pub and-0xffffffff : (x : ℕ) → bit_and x 0xffffffff ≡ x % 2 ^ 32
and-0xffffffff x = and_low 32 x

pub and-0xffffff00 : (x : ℕ) → x < 2 ^ 32 → bit_and x 0xffffff00 ≡ x / 256 * 256
and-0xffffff00 x h = and_high 8 24 x (omega arith)

pub and-0xffff0000 : (x : ℕ) → x < 2 ^ 32 → bit_and x 0xffff0000 ≡ x / 65536 * 65536
and-0xffff0000 x h = and_high 16 16 x (omega arith)

pub byte_1 : (x : ℕ) → bit_and x 0xff00 >>> 8 ≡ x / 256 % 256
byte_1 x = omega (arith, and_above 8 x 0xff, and-0xff (x / 256))

pub byte_2 : (x : ℕ) → bit_and x 0xff0000 >>> 16 ≡ x / 65536 % 256
byte_2 x = omega (arith, and_above 16 x 0xff, and-0xff (x / 65536))

pub byte_3 : (x : ℕ) → bit_and x 0xff000000 >>> 24 ≡ x / 16777216 % 256
byte_3 x = omega (arith, and_above 24 x 0xff, and-0xff (x / 16777216))

-- Whatever is or-ed in from bit 8, 16 or 24 on leaves the bits below alone.
pub or_above_8 : (x y : ℕ) → bit_or x (y <<< 8) % 256 ≡ x % 256
or_above_8 x y = ground (arith, or_split 8 (x / 256) y (x % 256) 0, or-zero (x % 256))

pub or_above_16 : (x y : ℕ) → bit_or x (y <<< 16) % 65536 ≡ x % 65536
or_above_16 x y = ground (arith, or_split 16 (x / 65536) y (x % 65536) 0, or-zero (x % 65536))

pub or_above_24 : (x y : ℕ) → bit_or x (y <<< 24) % 16777216 ≡ x % 16777216
or_above_24 x y =
    ground (arith, or_split 24 (x / 16777216) y (x % 16777216) 0, or-zero (x % 16777216))

-- The junk that `writeToVmem` mixes into its index has no effect: for every `trash` the index is
-- the size `v` itself.
pub writer_index-eq : (v trash : ℕ) → v < 4 → writer_index v trash ≡ v
unfolding writer_index
writer_index-eq v trash h =
    let w = bit_xor (sub32 v (not32 0xa1)) trash in
    let j = bit_and (w / 4) 0x1f in
    ground (
      arith,
      and_above 2 w 0x1f,
      or_join 2 j v (omega arith),
      and-0xff (bit_or (bit_and w 0x7c) v),
      and-0xff (j * 4 + v),
    )
