-- ===== src/Handler/Special/Swap.antt =====
-- SWAP, PACKHI and PACKLO as arithmetic on the halves of a value.
use weeper_vm.Base.{ℕ, zero, suc, ◌+◌, ◌*◌, ◌/◌, ◌%◌, ◌^◌, ◌<◌, ◌≡◌, arith}
use weeper_vm.Base.Bits.{and_low, and_above, or_join_low, or_join}
use weeper_vm.Handler.Arith.Reg.{IsSize, span}
use weeper_vm.Handler.Special.{
  swap_halves, pack_hi, pack_lo, half_width, high_mask, low_mask, by_size,
}

-- One more than the greatest half.
abbrev pub half_span : ℕ → ℕ
half_span v = 2 ^ half_width v

swap_halves-eq :
    (v x : ℕ)
    → IsSize v
    → x < span v
    → swap_halves v x ≡ x % half_span v * half_span v + x / half_span v
unfolding swap_halves half_width high_mask by_size
swap_halves-eq zero x s h = absurd (omega arith)
swap_halves-eq (suc zero) x s h =
    ground
      (arith, and_above 4 x 15, and_low 4 (x / 16), and_low 4 x, or_join_low 4 (x % 16) (x / 16))
swap_halves-eq (suc (suc zero)) x s h =
    ground (
      arith,
      and_above 8 x 255,
      and_low 8 (x / 256),
      and_low 8 x,
      or_join_low 8 (x % 256) (x / 256),
    )
swap_halves-eq (suc (suc (suc zero))) x s h = ground (
  arith,
  and_above 16 x 65535,
  and_low 16 (x / 65536),
  and_low 16 x,
  or_join_low 16 (x % 65536) (x / 65536),
)
swap_halves-eq (suc (suc (suc (suc v)))) x s h = absurd (omega arith)

pack_hi-eq :
    (v dst src : ℕ)
    → IsSize v
    → dst < span v
    → src < span v
    → pack_hi v dst src ≡ dst / half_span v * half_span v + src / half_span v
unfolding pack_hi half_width high_mask by_size
pack_hi-eq zero x y s h k = absurd (omega arith)
pack_hi-eq (suc zero) x y s h k = ground (
  arith,
  and_above 4 x 15,
  and_low 4 (x / 16),
  and_above 4 y 15,
  and_low 4 (y / 16),
  or_join 4 (x / 16) (y / 16),
)
pack_hi-eq (suc (suc zero)) x y s h k = ground (
  arith,
  and_above 8 x 255,
  and_low 8 (x / 256),
  and_above 8 y 255,
  and_low 8 (y / 256),
  or_join 8 (x / 256) (y / 256),
)
pack_hi-eq (suc (suc (suc zero))) x y s h k = ground (
  arith,
  and_above 16 x 65535,
  and_low 16 (x / 65536),
  and_above 16 y 65535,
  and_low 16 (y / 65536),
  or_join 16 (x / 65536) (y / 65536),
)
pack_hi-eq (suc (suc (suc (suc v)))) x y s h k = absurd (omega arith)

pack_lo-eq :
    (v dst src : ℕ)
    → IsSize v
    → dst < span v
    → src < span v
    → pack_lo v dst src ≡ src % half_span v * half_span v + dst % half_span v
unfolding pack_lo half_width low_mask by_size
pack_lo-eq zero x y s h k = absurd (omega arith)
pack_lo-eq (suc zero) x y s h k =
    ground (arith, and_low 4 x, and_low 4 y, or_join_low 4 (y % 16) (x % 16))
pack_lo-eq (suc (suc zero)) x y s h k =
    ground (arith, and_low 8 x, and_low 8 y, or_join_low 8 (y % 256) (x % 256))
pack_lo-eq (suc (suc (suc zero))) x y s h k =
    ground (arith, and_low 16 x, and_low 16 y, or_join_low 16 (y % 65536) (x % 65536))
pack_lo-eq (suc (suc (suc (suc v)))) x y s h k = absurd (omega arith)

swap_halves-lt : (v x : ℕ) → IsSize v → x < span v → swap_halves v x < span v
unfolding half_width
swap_halves-lt zero x s h = absurd (omega arith)
swap_halves-lt (suc zero) x s h = omega (arith, swap_halves-eq 1 x s h)
swap_halves-lt (suc (suc zero)) x s h = omega (arith, swap_halves-eq 2 x s h)
swap_halves-lt (suc (suc (suc zero))) x s h = omega (arith, swap_halves-eq 3 x s h)
swap_halves-lt (suc (suc (suc (suc v)))) x s h = absurd (omega arith)

-- The halves of what the three instructions compute.
abbrev pub HalvesMove : (v x y : ℕ) → Type 0
HalvesMove v x y =
    let h = half_span v in
    (swap_halves v x / h ≡ x % h)
    × (swap_halves v x % h ≡ x / h)
    × (swap_halves v (swap_halves v x) ≡ x)
    × (pack_hi v y x / h ≡ y / h)
    × (pack_hi v y x % h ≡ x / h)
    × (pack_lo v y x / h ≡ x % h)
    × (pack_lo v y x % h ≡ y % h)

-- At each of the three sizes, for values `x` and `y` of that size: SWAP of `x` exchanges its halves,
-- and SWAP twice gives `x` back; PACKHI of `x` into `y` keeps the high half of `y` and puts the high
-- half of `x` below it; PACKLO keeps the low half of `y` and puts the low half of `x` above it.
pub swap_halves-pack : (v x y : ℕ) → IsSize v → x < span v → y < span v → HalvesMove v x y
unfolding half_width
swap_halves-pack zero x y s h k = absurd (omega arith)
swap_halves-pack (suc zero) x y s h k = omega (
  arith,
  swap_halves-eq 1 x s h,
  swap_halves-eq 1 (swap_halves 1 x) s (swap_halves-lt 1 x s h),
  pack_hi-eq 1 y x s k h,
  pack_lo-eq 1 y x s k h,
)
swap_halves-pack (suc (suc zero)) x y s h k = omega (
  arith,
  swap_halves-eq 2 x s h,
  swap_halves-eq 2 (swap_halves 2 x) s (swap_halves-lt 2 x s h),
  pack_hi-eq 2 y x s k h,
  pack_lo-eq 2 y x s k h,
)
swap_halves-pack (suc (suc (suc zero))) x y s h k = omega (
  arith,
  swap_halves-eq 3 x s h,
  swap_halves-eq 3 (swap_halves 3 x) s (swap_halves-lt 3 x s h),
  pack_hi-eq 3 y x s k h,
  pack_lo-eq 3 y x s k h,
)
swap_halves-pack (suc (suc (suc (suc v)))) x y s h k = absurd (omega arith)
