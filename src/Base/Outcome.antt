-- ===== src/Base/Outcome.antt =====
-- The outcome of a piece of the machine's work.
use Prim.Native.Nat.{ℕ}
use mathlib.Core.Path.{◌≡◌, refl, ap, subst}
use mathlib.Core.Option.{Option, none, some}

-- `exited c` is a call of `sys_exit(c)`. `undefined` is what C leaves undefined: an access out of
-- range, a call through the null entry of a table, a read of a variable that was never set, a
-- division by zero, a shift by the width or more.
pub data Run {ℓ} (A : Type ℓ) : Type ℓ where
  ok : A → Run A
  exited : ℕ → Run A
  undefined : Run A

infixl 5 ◌>>=◌
abbrev pub ◌>>=◌ {ℓ κ} : {A : Type ℓ} {B : Type κ} → Run A → (A → Run B) → Run B
ok a >>= f = f a
exited c >>= f = exited c
undefined >>= f = undefined

abbrev pub lift {ℓ} : {A : Type ℓ} → Option A → Run A
lift none = undefined
lift (some a) = ok a

-- A normal return satisfies `P`; nothing is said of the other outcomes.
pub data Ensures {ℓ κ} {A : Type ℓ} (P : A → Type κ) : Run A → Type (ℓ ⊔ κ) where
  returns : {a : A} → P a → Ensures P (ok a)
  exits : {c : ℕ} → Ensures P (exited c)
  stuck : Ensures P undefined

module _ {ℓ κ} {A : Type ℓ} {B : Type κ} where
  pub bind :
      {P : A → Type 0} {Q : B → Type 0} {r : Run A} {f : A → Run B}
      → Ensures P r
      → ((a : A) → P a → Ensures Q (f a))
      → Ensures Q (r >>= f)
  bind (returns p) next = next _ p
  bind exits next = exits
  bind stuck next = stuck

  pub bind_ok :
      (m : Run A) (f : A → Run B) {b : B} → (m >>= f) ≡ ok b → (a : A) × (m ≡ ok a) × (f a ≡ ok b)
  bind_ok (ok a) f h = (a, refl, h)
  bind_ok (exited c) f h = cc
  bind_ok undefined f h = cc

module _ {ℓ} {A : Type ℓ} where
  pub mono : {P Q : A → Type 0} {r : Run A} → Ensures P r → ((a : A) → P a → Q a) → Ensures Q r
  mono (returns p) weaken = returns (weaken _ p)
  mono exits weaken = exits
  mono stuck weaken = stuck

  pub anyhow : (r : Run A) → Ensures (λ _. Unit {0}) r
  anyhow (ok a) = returns tt
  anyhow (exited c) = exits
  anyhow undefined = stuck

  value_or : A → Run A → A
  value_or d (ok a) = a
  value_or d (exited c) = d
  value_or d undefined = d

  pub ok-injective : {a b : A} → ok a ≡ ok b → a ≡ b
  unfolding value_or
  ok-injective {a} e = ap (value_or a) e

  -- What is ensured of an outcome holds of the value that it is known to return.
  pub ensured : {P : A → Type 0} {r : Run A} {a : A} → Ensures P r → r ≡ ok a → P a
  ensured {P} (returns p) e = subst P (ok-injective e) p
  ensured exits e = cc
  ensured stuck e = cc

-- Total correctness: a normal return, and its value satisfies `P`.
pub data Returns {ℓ κ} {A : Type ℓ} (P : A → Type κ) : Run A → Type (ℓ ⊔ κ) where
  gives : {a : A} → P a → Returns P (ok a)

module _ {ℓ κ} {A : Type ℓ} {B : Type κ} where
  pub then_gives :
      {P : A → Type 0} {Q : B → Type 0} {r : Run A} {f : A → Run B}
      → Returns P r
      → ((a : A) → P a → Returns Q (f a))
      → Returns Q (r >>= f)
  then_gives (gives p) next = next _ p

pub Ensures-of_Returns {ℓ κ} : {A : Type ℓ} {P : A → Type κ} {r : Run A} → Returns P r → Ensures P r
Ensures-of_Returns (gives p) = returns p
