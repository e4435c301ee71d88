-- ===== src/Base/Bits/Digit.antt =====
-- The native bit operations as recursions on the lowest binary digit.
use Prim.Native.Nat.{ℕ, zero, suc, ◌+◌, ◌*◌, ◌/◌, ◌%◌, ◌≤◌, min, max, digits, bitwise, differ}
use Prim.Native.Nat.{bit_and, bit_or, bit_xor, bit_and-bitwise, bit_or-bitwise, bit_xor-bitwise}
use mathlib.Core.Path.{◌≡◌, refl}
use native.Mathlib.Omega.{arith}

module _ (rest : ℕ → ℕ) (op : ℕ → ℕ → ℕ) where
  -- Any two sufficient counts of digits give the same result.
  digits_count : (n m a b : ℕ) → a ≤ n → a ≤ m → digits rest op n a b ≡ digits rest op m a b
  digits_count zero zero a b hn hm = refl
  digits_count zero (suc m) zero b hn hm = refl
  digits_count zero (suc m) (suc a) b hn hm = elim hn [ ]
  digits_count (suc n) zero zero b hn hm = refl
  digits_count (suc n) zero (suc a) b hn hm = elim hm [ ]
  digits_count (suc n) (suc m) zero b hn hm = refl
  digits_count (suc n) (suc m) (suc a) b hn hm =
      let halves = digits_count n m (suc a / 2) (b / 2) (omega arith) (omega arith) in rw halves

  lowest_digit :
      (a b : ℕ)
      → bitwise rest op (suc a) b ≡ bitwise rest op (suc a / 2) (b / 2) * 2 + op (suc a % 2) (b % 2)
  lowest_digit a b = rw (digits_count a (suc a / 2) (suc a / 2) (b / 2) (omega arith) (omega arith))

differ_digit : (x y : ℕ) → x ≤ 1 → y ≤ 1 → differ x y ≡ (x + y) % 2
differ_digit zero y hx hy = omega arith
differ_digit (suc zero) zero hx hy = omega arith
differ_digit (suc zero) (suc zero) hx hy = omega arith
differ_digit (suc zero) (suc (suc y)) hx hy = absurd (omega arith)
differ_digit (suc (suc x)) y hx hy = absurd (omega arith)

pub and_digit : (a b : ℕ) → bit_and a b ≡ bit_and (a / 2) (b / 2) * 2 + min (a % 2) (b % 2)
and_digit zero b = simp bit_and-bitwise (omega arith)
and_digit (suc a) b = simp bit_and-bitwise (lowest_digit (λ _. 0) min a b)

pub or_digit : (a b : ℕ) → bit_or a b ≡ bit_or (a / 2) (b / 2) * 2 + max (a % 2) (b % 2)
or_digit zero b = simp bit_or-bitwise (omega arith)
or_digit (suc a) b = simp bit_or-bitwise (lowest_digit (λ y. y) max a b)

pub xor_digit : (a b : ℕ) → bit_xor a b ≡ bit_xor (a / 2) (b / 2) * 2 + (a + b) % 2
xor_digit zero b = simp bit_xor-bitwise (omega arith)
xor_digit (suc a) b = omega (
  arith,
  bit_xor-bitwise (suc a) b,
  bit_xor-bitwise (suc a / 2) (b / 2),
  lowest_digit (λ y. y) differ a b,
  differ_digit (suc a % 2) (b % 2) (omega arith) (omega arith),
)
