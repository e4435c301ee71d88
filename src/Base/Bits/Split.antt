-- ===== src/Base/Bits/Split.antt =====
-- What holds of any operation that works digit by digit.
use Prim.Native.Nat.{ℕ, zero, suc, ◌+◌, ◌*◌, ◌/◌, ◌%◌, ◌^◌, ◌≤◌, ◌<◌}
use mathlib.Core.Path.{◌≡◌, ap}
use native.Mathlib.Nat.{pow-suc}
use native.Mathlib.Omega.{arith}

pub mul-double : (q k : ℕ) → q * 2 ^ suc k ≡ 2 * (q * 2 ^ k)
mul-double q k = omega (arith, ap (λ (t : ℕ). q * t) (pow-suc 2 k))

pub double : (k : ℕ) → 2 ^ suc k ≡ 2 * 2 ^ k
double k = omega (arith, pow-suc 2 k)

module _ (op digit : ℕ → ℕ → ℕ) (zeros : op 0 0 ≡ 0)
    (step : (a b : ℕ) → op a b ≡ op (a / 2) (b / 2) * 2 + digit (a % 2) (b % 2)) where
  -- The high parts and the low parts are worked on apart.
  pub split :
      (k a b c d : ℕ)
      → c < 2 ^ k
      → d < 2 ^ k
      → op (a * 2 ^ k + c) (b * 2 ^ k + d) ≡ op a b * 2 ^ k + op c d
  split zero a b c d hc hd = ground (arith, zeros)
  split (suc k) a b c d hc hd = ground (
    arith,
    step (a * 2 ^ suc k + c) (b * 2 ^ suc k + d),
    step c d,
    mul-double a k,
    mul-double b k,
    mul-double (op a b) k,
    double k,
    split k a b (c / 2) (d / 2),
  )

  -- No digit appears above those of the arguments.
  pub bound :
      ((x y : ℕ) → x ≤ 1 → y ≤ 1 → digit x y ≤ 1)
      → (k a b : ℕ) → a < 2 ^ k
      → b < 2 ^ k
      → op a b < 2 ^ k
  bound small zero a b ha hb = ground (arith, zeros)
  bound small (suc k) a b ha hb = omega (
    arith,
    step a b,
    double k,
    small (a % 2) (b % 2) (omega arith) (omega arith),
    bound small k (a / 2) (b / 2) (omega (arith, double k)) (omega (arith, double k)),
  )
