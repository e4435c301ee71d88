-- ===== src/Handler/Special/Rev.antt =====
-- REV reverses the bits of a value.
use weeper_vm.Base.{
  ℕ, zero, suc, ◌+◌, ◌*◌, ◌/◌, ◌%◌, ◌^◌, ◌≤◌, ◌<◌, ◌≡◌, arith, ◌∙◌, ap, ap₂, bit_or, u32, ◌<<<◌,
}
use native.Mathlib.Nat.{pow-succ', pow-le-pow_right}
use weeper_vm.Base.Bits.{or_join}
use weeper_vm.Handler.Special.{rev_rounds, bit_width, by_size}
use weeper_vm.Handler.Arith.Reg.{IsSize, span}

-- The `n` low bits of a number, the lowest the highest.
abbrev pub reversed : ℕ → ℕ → ℕ
reversed zero x = 0
reversed (suc n) x = x % 2 * 2 ^ n + reversed n (x / 2)

bit_times : (b p : ℕ) → b < 2 → b * p ≤ p
bit_times zero p h = omega arith
bit_times (suc zero) p h = omega arith
bit_times (suc (suc b)) p h = absurd (omega arith)

reversed-lt : (n x : ℕ) → reversed n x < 2 ^ n
reversed-lt zero x = omega arith
reversed-lt (suc n) x =
    omega (arith, reversed-lt n (x / 2), pow-succ' 2 n, bit_times (x % 2) (2 ^ n) (omega arith))

doubled : (a n : ℕ) → a * 2 ^ suc n ≡ a * 2 ^ n * 2
doubled a n =
    let turned : a * (2 * 2 ^ n) ≡ a * 2 ^ n * 2 = omega arith in
    ap (λ (t : ℕ). a * t) (pow-succ' 2 n) ∙ turned

-- The highest bit becomes the lowest.
reversed-top :
    (n b y : ℕ) → b < 2 → y < 2 ^ n → reversed (suc n) (b * 2 ^ n + y) ≡ reversed n y * 2 + b
reversed-top zero b y hb hy = omega arith
reversed-top (suc n) b y hb hy =
    let e : b * 2 ^ suc n + y ≡ b * 2 ^ n * 2 + y = omega (arith, doubled b n) in
    let low : (b * 2 ^ n * 2 + y) % 2 ≡ y % 2 = omega arith in
    let rest : (b * 2 ^ n * 2 + y) / 2 ≡ b * 2 ^ n + y / 2 = omega arith in
    ap (λ (z : ℕ). z % 2 * 2 ^ suc n + reversed (suc n) (z / 2)) e
    ∙ ap₂ (λ (c z : ℕ). c * 2 ^ suc n + reversed (suc n) z) low rest
    ∙ ap (λ (z : ℕ). y % 2 * 2 ^ suc n + z)
        (reversed-top n b (y / 2) hb (omega (arith, pow-succ' 2 n)))
    ∙ omega (arith, doubled (y % 2) n)

pub reversed-reversed : (n x : ℕ) → x < 2 ^ n → reversed n (reversed n x) ≡ x
reversed-reversed zero x h = omega arith
reversed-reversed (suc n) x h =
    let inner = reversed-reversed n (x / 2) (omega (arith, pow-succ' 2 n)) in
    omega (
      arith,
      reversed-top n (x % 2) (reversed n (x / 2)) (omega arith) (reversed-lt n (x / 2)),
      inner,
    )

-- The loop puts the reversed bits behind what it has.
rev_rounds-reversed :
    (n k src rev : ℕ)
    → n + k ≤ 32
    → rev < 2 ^ k
    → rev_rounds n src rev ≡ rev * 2 ^ n + reversed n src
unfolding rev_rounds
rev_rounds-reversed zero k src rev h hr = omega arith
rev_rounds-reversed (suc n) k src rev h hr =
    let short : k ≤ 31 = omega arith in
    let fits : 2 ^ k ≤ 2 ^ 31 = pow-le-pow_right (omega arith) short in
    let whole : u32 (rev <<< 1) ≡ rev * 2 ^ 1 = omega (arith, fits) in
    let joined : bit_or (u32 (rev <<< 1)) (src % 2) ≡ rev * 2 + src % 2 =
      ap (λ (t : ℕ). bit_or t (src % 2)) whole ∙ or_join 1 rev (src % 2) (omega arith) in
    ap (λ (t : ℕ). rev_rounds n (src / 2) t) joined
    ∙ rev_rounds-reversed n (suc k) (src / 2) (rev * 2 + src % 2) (omega (arith, h))
        (omega (arith, pow-succ' 2 k, hr))
    ∙ omega (arith, doubled rev n)

twice :
    (n x : ℕ)
    → n ≤ 32
    → x < 2 ^ n
    → (rev_rounds n x 0 ≡ reversed n x) × (rev_rounds n (rev_rounds n x 0) 0 ≡ x)
twice n x h hx =
    let once : (y : ℕ) → rev_rounds n y 0 ≡ reversed n y =
      λ y. rev_rounds-reversed n 0 y 0 (omega arith) (omega arith) ∙ (omega arith) in
    (
      once x,
      ap (λ (t : ℕ). rev_rounds n t 0) (once x) ∙ once (reversed n x) ∙ reversed-reversed n x hx,
    )

-- REV at each of the three sizes gives the bits of a value in the other order, the lowest the
-- highest, and REV twice gives the value back.
pub rev_rounds-twice :
    (v x : ℕ)
    → IsSize v
    → x < span v
    → (let n = bit_width v in
        (rev_rounds n x 0 ≡ reversed n x) × (rev_rounds n (rev_rounds n x 0) 0 ≡ x))
unfolding bit_width by_size
rev_rounds-twice zero x h hx = absurd (omega arith)
rev_rounds-twice (suc zero) x h hx = twice 8 x (omega arith) hx
rev_rounds-twice (suc (suc zero)) x h hx = twice 16 x (omega arith) hx
rev_rounds-twice (suc (suc (suc zero))) x h hx = twice 32 x (omega arith) hx
rev_rounds-twice (suc (suc (suc (suc v)))) x h hx = absurd (omega arith)
