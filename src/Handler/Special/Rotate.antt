-- ===== src/Handler/Special/Rotate.antt =====
-- ROL and ROR of a word, which undo each other.
use weeper_vm.Base.{
  ℕ, zero, suc, ◌+◌, ◌-◌, ◌*◌, ◌/◌, ◌%◌, ◌^◌, ◌<◌, ◌≡◌, refl, sym, subst, arith, ok, undefined,
  ◌>>=◌, ◌∙◌, ap, ltb-true,
}
use native.Mathlib.Nat.{
  pow-succ', div-eq_of_lt, add-mul-div_left, div-lt_iff_lt-mul, one-le-pow, mod-eq_of_lt,
  mul-add-mod_self_right,
}
use weeper_vm.Base.Bits.{or_join, or_join_low}
use weeper_vm.Handler.Arith.{shl32, shr32}
use weeper_vm.Handler.Special.{rotate_left, rotate_right}

-- A power of two in two parts.
powers : (r s : ℕ) → 2 ^ (r + s) ≡ 2 ^ r * 2 ^ s
powers zero s =
    let none_first : 0 + s ≡ s = omega arith in
    let once : 2 ^ s ≡ 2 ^ 0 * 2 ^ s = omega arith in ap (λ (n : ℕ). 2 ^ n) none_first ∙ once
powers (suc r) s =
    let one_first : suc r + s ≡ suc (r + s) = omega arith in
    let regroup : 2 * (2 ^ r * 2 ^ s) ≡ 2 * 2 ^ r * 2 ^ s = omega arith in
    ap (λ (n : ℕ). 2 ^ n) one_first
    ∙ pow-succ' 2 (r + s)
    ∙ ap (λ (n : ℕ). 2 * n) (powers r s)
    ∙ regroup
    ∙ sym (ap (λ (n : ℕ). n * 2 ^ s) (pow-succ' 2 r))

below_product : (l t p : ℕ) → 0 < p → l * p < p * (l + 1 + t)
below_product l t p h = omega arith

-- What is shifted out by `p` is gone.
shifted : (h l p q : ℕ) → 0 < p → l < q → (h * q + l) * p % (p * q) ≡ l * p
shifted h l p q hp hl =
    let apart : (h * q + l) * p ≡ h * (p * q) + l * p = omega arith in
    let e : q ≡ l + 1 + (q - l - 1) = omega arith in
    let small : l * p < p * q =
      subst (λ (n : ℕ). l * p < p * n) (sym e) (below_product l (q - l - 1) p hp) in
    ap (λ (n : ℕ). n % (p * q)) apart
    ∙ mul-add-mod_self_right h (p * q) (l * p)
    ∙ mod-eq_of_lt small

high_part : (h l q : ℕ) → l < q → (h * q + l) / q ≡ h
high_part h l q hl =
    let turned : h * q + l ≡ l + q * h = omega arith in
    let none_left : l / q ≡ 0 = div-eq_of_lt hl in
    let alone : l / q + h ≡ h = omega (arith, none_left) in
    ap (λ (n : ℕ). n / q) turned ∙ add-mul-div_left l h (omega arith) ∙ alone

-- A word of a high part of `r` bits and a low part of `s`.
module _ (r s h l : ℕ) (width : r + s ≡ 32) (some_r : 0 < r) (some_s : 0 < s) (hh : h < 2 ^ r)
    (hl : l < 2 ^ s) where
  goes_left : rotate_left 32 (h * 2 ^ s + l) r ≡ ok (l * 2 ^ r + h)
  unfolding rotate_left shl32 shr32
  goes_left =
      let all : 2 ^ r * 2 ^ s ≡ 2 ^ 32 = sym (powers r s) ∙ ap (λ (n : ℕ). 2 ^ n) width in
      let back : 32 - r ≡ s = omega arith in
      let high : (h * 2 ^ s + l) / 2 ^ s ≡ h = high_part h l (2 ^ s) hl in
      let low : (h * 2 ^ s + l) * 2 ^ r % 2 ^ 32 ≡ l * 2 ^ r =
        ap (λ (n : ℕ). (h * 2 ^ s + l) * 2 ^ r % n) (sym all)
        ∙ shifted h l (2 ^ r) (2 ^ s) (one-le-pow r 2 (omega arith)) hl in
      rw (ltb-true r 32 (omega arith), back, ltb-true s 32 (omega arith), low, high)
        (ap ok (or_join r l h hh))

  goes_right : rotate_right 32 (l * 2 ^ r + h) r ≡ ok (h * 2 ^ s + l)
  unfolding rotate_right shl32 shr32
  goes_right =
      let swapped : s + r ≡ 32 = omega (arith, width) in
      let all : 2 ^ s * 2 ^ r ≡ 2 ^ 32 = sym (powers s r) ∙ ap (λ (n : ℕ). 2 ^ n) swapped in
      let back : 32 - r ≡ s = omega arith in
      let high : (l * 2 ^ r + h) / 2 ^ r ≡ l = high_part l h (2 ^ r) hh in
      let low : (l * 2 ^ r + h) * 2 ^ s % 2 ^ 32 ≡ h * 2 ^ s =
        ap (λ (n : ℕ). (l * 2 ^ r + h) * 2 ^ s % n) (sym all)
        ∙ shifted l h (2 ^ s) (2 ^ r) (one-le-pow s 2 (omega arith)) hh in
      rw (ltb-true r 32 (omega arith), back, ltb-true s 32 (omega arith), high, low)
        (ap ok (or_join_low s h l hl))

module _ (x r s : ℕ) (width : r + s ≡ 32) (some_r : 0 < r) (some_s : 0 < s) (hx : x < 2 ^ 32) where
  -- The parts of a word, the high one of `a` bits.
  quotient : (a b : ℕ) → 2 ^ a * 2 ^ b ≡ 2 ^ 32 → x / 2 ^ b < 2 ^ a
  quotient a b all =
      (div-lt_iff_lt-mul (one-le-pow b 2 (omega arith))).1 (subst (λ (n : ℕ). x < n) (sym all) hx)

  remainder : (b : ℕ) → x % 2 ^ b < 2 ^ b
  remainder b = omega (arith, one-le-pow b 2 (omega arith))

  there : (rotate_left 32 x r >>= λ y. rotate_right 32 y r) ≡ ok x
  there =
      let all : 2 ^ r * 2 ^ s ≡ 2 ^ 32 = sym (powers r s) ∙ ap (λ (n : ℕ). 2 ^ n) width in
      let parts : x / 2 ^ s * 2 ^ s + x % 2 ^ s ≡ x = omega arith in
      let hh = quotient r s all in
      subst (λ (n : ℕ). (rotate_left 32 n r >>= λ y. rotate_right 32 y r) ≡ ok n) parts
        (rw (goes_left r s (x / 2 ^ s) (x % 2 ^ s) width some_r some_s hh (remainder s))
          (goes_right r s (x / 2 ^ s) (x % 2 ^ s) width some_r some_s hh (remainder s)))

  back : (rotate_right 32 x r >>= λ y. rotate_left 32 y r) ≡ ok x
  back =
      let swapped : s + r ≡ 32 = omega (arith, width) in
      let all : 2 ^ s * 2 ^ r ≡ 2 ^ 32 = sym (powers s r) ∙ ap (λ (n : ℕ). 2 ^ n) swapped in
      let parts : x / 2 ^ r * 2 ^ r + x % 2 ^ r ≡ x = omega arith in
      let hh = quotient s r all in
      subst (λ (n : ℕ). (rotate_right 32 n r >>= λ y. rotate_left 32 y r) ≡ ok n) parts
        (rw (goes_right r s (x % 2 ^ r) (x / 2 ^ r) width some_r some_s (remainder r) hh)
          (goes_left r s (x % 2 ^ r) (x / 2 ^ r) width some_r some_s (remainder r) hh))

-- ROL and ROR of a word by 1 to 31 places undo each other, and neither is undefined there; by 0
-- places, which is also what a multiple of 32 comes to, both are undefined.
pub rotate_right-left :
    (x r : ℕ)
    → x < 2 ^ 32
    → r < 32
    → (0 < r
        → ((rotate_left 32 x r >>= λ y. rotate_right 32 y r) ≡ ok x)
          × ((rotate_right 32 x r >>= λ y. rotate_left 32 y r) ≡ ok x))
      × (r ≡ 0 → (rotate_left 32 x r ≡ undefined) × (rotate_right 32 x r ≡ undefined))
unfolding rotate_left rotate_right shl32 shr32
rotate_right-left x r hx hi = (
  λ lo. (
    there x r (32 - r) (omega arith) lo (omega arith) hx,
    back x r (32 - r) (omega arith) lo (omega arith) hx,
  ),
  λ none. rw none (refl, refl),
)
