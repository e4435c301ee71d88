-- ===== src/Compiler/Length.antt =====
-- The number of bits and of bytes of a number.
use weeper_vm.Base.{
  ℕ, zero, suc, ◌+◌, ◌*◌, ◌/◌, ◌^◌, ◌≤◌, ◌<◌, ◌≡◌, ◌↔◌, refl, subst, arith, if◌then◌else◌, ◌==◌,
}
use native.Mathlib.Nat.{one-le-pow, pow-suc}
use weeper_vm.Compiler.{bit_length_loop, bit_length, byte_length}

loop_fits : (rounds k x : ℕ) → x ≤ rounds → bit_length_loop rounds x ≤ k → x < 2 ^ k
unfolding bit_length_loop
loop_fits zero k x h e = omega (arith, one-le-pow k 2)
loop_fits (suc rounds) zero x h e = ground arith
loop_fits (suc rounds) (suc k) x h e =
    ground (arith, loop_fits rounds k (x / 2), one-le-pow k 2, pow-suc 2 k)

loop_short : (rounds k x : ℕ) → x ≤ rounds → x < 2 ^ k → bit_length_loop rounds x ≤ k
unfolding bit_length_loop
loop_short zero k x h e = omega arith
loop_short (suc rounds) zero x h e = ground arith
loop_short (suc rounds) (suc k) x h e = ground (arith, loop_short rounds k (x / 2), pow-suc 2 k)

-- `k` bits are enough exactly for the numbers below 2 ^ k.
pub bit_length-le : (k x : ℕ) → (bit_length x ≤ k) ↔ (x < 2 ^ k)
unfolding bit_length
bit_length-le k x = (loop_fits x k x (omega arith), loop_short x k x (omega arith))

-- The bytes of a number, at least one.
pub byte_length-le : (n x : ℕ) → 1 ≤ n → (byte_length x ≤ n) ↔ (x < 2 ^ (8 * n))
unfolding byte_length
byte_length-le n x h = (
  λ e. (bit_length-le (8 * n) x).0 (ground arith),
  λ e. ground (arith, (bit_length-le (8 * n) x).1 e),
)

pub byte_length-pos : (x : ℕ) → 1 ≤ byte_length x
unfolding byte_length
byte_length-pos x = ground arith

power_of_bytes : (n : ℕ) → n ≤ 4 → 2 ^ (8 * n) ≡ 256 ^ n
power_of_bytes zero h = refl
power_of_bytes (suc zero) h = refl
power_of_bytes (suc (suc zero)) h = refl
power_of_bytes (suc (suc (suc zero))) h = refl
power_of_bytes (suc (suc (suc (suc zero)))) h = refl
power_of_bytes (suc (suc (suc (suc (suc n))))) h = absurd (omega arith)

-- A number fits its bytes.
pub byte_length-fits : (x : ℕ) → byte_length x ≤ 4 → x < 256 ^ byte_length x
byte_length-fits x h =
    subst (λ (b : ℕ). x < b) (power_of_bytes (byte_length x) h)
      ((byte_length-le (byte_length x) x (byte_length-pos x)).0 (omega arith))

-- A number between two powers of 256.
pub byte_length-eq :
    (k x : ℕ) → 1 ≤ k → k ≤ 3 → 256 ^ k ≤ x → x < 256 ^ suc k → byte_length x ≡ suc k
byte_length-eq zero x lo hi a b = absurd (omega arith)
byte_length-eq (suc zero) x lo hi a b = ground (arith, byte_length-le 1 x, byte_length-le 2 x)
byte_length-eq (suc (suc zero)) x lo hi a b = ground (arith, byte_length-le 2 x, byte_length-le 3 x)
byte_length-eq (suc (suc (suc zero))) x lo hi a b =
    ground (arith, byte_length-le 3 x, byte_length-le 4 x)
byte_length-eq (suc (suc (suc (suc k)))) x lo hi a b = absurd (omega arith)

-- The bytes of a number of 20 bits, as the parser of displacements counts them.
pub byte_length-20 :
    (d : ℕ)
    → bit_length d ≤ 20
    → (byte_length d ≤ 3)
      × ((if bit_length d + 7 / 8 == 0 then 8 else (bit_length d + 7) / 8 * 8) ≡ 8 * byte_length d)
unfolding byte_length
byte_length-20 d h = ground arith
