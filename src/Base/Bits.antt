-- ===== src/Base/Bits.antt =====
-- Laws of `&`, `|` and `^` at every width.
mod Digit
mod Split
use Digit.{and_digit, or_digit, xor_digit}
use Split.{split, bound, double}
use Prim.Native.Nat.{ℕ, zero, suc, ◌+◌, ◌-◌, ◌*◌, ◌/◌, ◌%◌, ◌^◌, ◌≤◌, ◌<◌, min, max}
use Prim.Native.Nat.{bit_and, bit_or, bit_xor, bit_and-bitwise, bit_or-bitwise, bit_xor-bitwise}
use mathlib.Core.Path.{◌≡◌, refl, ◌∙◌, ap}
use native.Mathlib.Nat.{one-le-pow, mod-eq_of_lt}
use native.Mathlib.Omega.{arith}

xor_digits : (a b : ℕ) → bit_xor a b ≡ bit_xor (a / 2) (b / 2) * 2 + (a % 2 + b % 2) % 2
xor_digits a b = omega (arith, xor_digit a b)

pub zero-or : (b : ℕ) → bit_or 0 b ≡ b
zero-or b = bit_or-bitwise 0 b

pub zero-and : (b : ℕ) → bit_and 0 b ≡ 0
zero-and b = bit_and-bitwise 0 b

pub zero-xor : (b : ℕ) → bit_xor 0 b ≡ b
zero-xor b = bit_xor-bitwise 0 b

or-zero_below : (n a : ℕ) → a ≤ n → bit_or a 0 ≡ a
or-zero_below n zero h = refl
or-zero_below zero (suc a) h = elim h [ ]
or-zero_below (suc n) (suc a) h =
    omega (arith, or_digit (suc a) 0, or-zero_below n (suc a / 2) (omega arith))

pub or-zero : (a : ℕ) → bit_or a 0 ≡ a
or-zero a = or-zero_below a a (omega arith)

and-zero_below : (n a : ℕ) → a ≤ n → bit_and a 0 ≡ 0
and-zero_below n zero h = refl
and-zero_below zero (suc a) h = elim h [ ]
and-zero_below (suc n) (suc a) h =
    omega (arith, and_digit (suc a) 0, and-zero_below n (suc a / 2) (omega arith))

pub and-zero : (a : ℕ) → bit_and a 0 ≡ 0
and-zero a = and-zero_below a a (omega arith)

pub or_split :
    (k a b c d : ℕ)
    → c < 2 ^ k
    → d < 2 ^ k
    → bit_or (a * 2 ^ k + c) (b * 2 ^ k + d) ≡ bit_or a b * 2 ^ k + bit_or c d
or_split = split bit_or max refl or_digit

pub and_split :
    (k a b c d : ℕ)
    → c < 2 ^ k
    → d < 2 ^ k
    → bit_and (a * 2 ^ k + c) (b * 2 ^ k + d) ≡ bit_and a b * 2 ^ k + bit_and c d
and_split = split bit_and min refl and_digit

pub xor_split :
    (k a b c d : ℕ)
    → c < 2 ^ k
    → d < 2 ^ k
    → bit_xor (a * 2 ^ k + c) (b * 2 ^ k + d) ≡ bit_xor a b * 2 ^ k + bit_xor c d
xor_split = split bit_xor (λ x y. (x + y) % 2) refl xor_digits

pub or-lt : (k a b : ℕ) → a < 2 ^ k → b < 2 ^ k → bit_or a b < 2 ^ k
or-lt = bound bit_or max refl or_digit (λ x y hx hy. omega arith)

pub xor-lt : (k a b : ℕ) → a < 2 ^ k → b < 2 ^ k → bit_xor a b < 2 ^ k
xor-lt = bound bit_xor (λ x y. (x + y) % 2) refl xor_digits (λ x y hx hy. omega arith)

-- `(q << k) | r` is a sum when `r` fits below.
pub or_join : (k q r : ℕ) → r < 2 ^ k → bit_or (q * 2 ^ k) r ≡ q * 2 ^ k + r
or_join k q r h = ground (arith, or_split k q 0 0 r, or-zero q, zero-or r, one-le-pow k 2)

-- A number below or-ed with one above is a sum.
pub or_join_low : (k q r : ℕ) → r < 2 ^ k → bit_or r (q * 2 ^ k) ≡ q * 2 ^ k + r
or_join_low k q r h = ground (arith, or_split k 0 q r 0, zero-or q, or-zero r)

and_ones : (k r : ℕ) → r < 2 ^ k → bit_and r (2 ^ k - 1) ≡ r
and_ones zero r h = rw and-zero (omega arith)
and_ones (suc k) r h =
    ground (arith, and_digit r (2 ^ suc k - 1), double k, one-le-pow k 2, and_ones k (r / 2))

-- A mask of the `k` low bits is the remainder by `2 ^ k`.
pub and_low : (k a : ℕ) → bit_and a (2 ^ k - 1) ≡ a % 2 ^ k
and_low k a = ground (
  arith,
  and_split k (a / 2 ^ k) 0 (a % 2 ^ k) (2 ^ k - 1),
  and_ones k (a % 2 ^ k),
  and-zero (a / 2 ^ k),
  one-le-pow k 2,
)

-- A mask whose `k` low bits are clear works on the bits above them.
pub and_above : (k a m : ℕ) → bit_and a (m * 2 ^ k) ≡ bit_and (a / 2 ^ k) m * 2 ^ k
and_above k a m =
    ground (arith, and_split k (a / 2 ^ k) m (a % 2 ^ k) 0, and-zero (a % 2 ^ k), one-le-pow k 2)

-- A mask of the bits from `k` to `k + j` clears the `k` low bits of a number of that width.
pub and_high : (k j a : ℕ) → a / 2 ^ k < 2 ^ j → bit_and a ((2 ^ j - 1) * 2 ^ k) ≡ a / 2 ^ k * 2 ^ k
and_high k j a h =
    and_above k a (2 ^ j - 1) ∙ ap (λ t. t * 2 ^ k) (and_low j (a / 2 ^ k) ∙ mod-eq_of_lt h)

xor_cancel_below : (n a b : ℕ) → a ≤ n → b ≤ n → bit_xor (bit_xor a b) b ≡ a
xor_cancel_below n zero zero ha hb = refl
xor_cancel_below zero (suc a) b ha hb = elim ha [ ]
xor_cancel_below zero zero (suc b) ha hb = elim hb [ ]
xor_cancel_below (suc n) a b ha hb = ground (
  arith,
  xor_digit a b,
  xor_digit (bit_xor a b) b,
  xor_cancel_below n (a / 2) (b / 2) (omega arith) (omega arith),
)

pub xor_cancel : (a b : ℕ) → bit_xor (bit_xor a b) b ≡ a
xor_cancel a b = xor_cancel_below (a + b) a b (omega arith) (omega arith)

xor_comm_below : (n a b : ℕ) → a ≤ n → b ≤ n → bit_xor a b ≡ bit_xor b a
xor_comm_below n zero zero ha hb = refl
xor_comm_below zero (suc a) b ha hb = elim ha [ ]
xor_comm_below zero zero (suc b) ha hb = elim hb [ ]
xor_comm_below (suc n) a b ha hb = omega (
  arith,
  xor_digit a b,
  xor_digit b a,
  xor_comm_below n (a / 2) (b / 2) (omega arith) (omega arith),
)

pub xor_comm : (a b : ℕ) → bit_xor a b ≡ bit_xor b a
xor_comm a b = xor_comm_below (a + b) a b (omega arith) (omega arith)

pub xor_cancel_left : (a b : ℕ) → bit_xor a (bit_xor a b) ≡ b
xor_cancel_left a b = rw (xor_comm a b, xor_comm a (bit_xor b a)) (xor_cancel b a)

and-le_below : (n a b : ℕ) → a ≤ n → bit_and a b ≤ a
and-le_below n zero b h = omega (arith, zero-and b)
and-le_below zero (suc a) b h = elim h [ ]
and-le_below (suc n) (suc a) b h =
    omega (arith, and_digit (suc a) b, and-le_below n (suc a / 2) (b / 2) (omega arith))

pub and-le : (a b : ℕ) → bit_and a b ≤ a
and-le a b = and-le_below a a b (omega arith)
