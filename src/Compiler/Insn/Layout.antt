-- ===== src/Compiler/Insn/Layout.antt =====
-- Where the parts of an instruction stand in its bytes.
use mathlib.Core.List.{append_assoc}
use mathlib.Core.Option.{some-injective}
use weeper_vm.Base.{
  Bool, true, false, ℕ, zero, suc, ◌+◌, ◌-◌, ◌*◌, ◌/◌, ◌%◌, ◌^◌, ◌<◌, ◌≡◌, refl, sym, subst, ap,
  ◌∙◌, arith, List, [], ◌∷◌, ◌++◌, ok, some, none, u32, ltb, ltb-true, ◌==◌, if◌then◌else◌, bit_or,
  bit_xor, ◌<<<◌, lift, get_elem?, length, length-append, take, take-append, All,
}
use weeper_vm.Base.Bits.{or_join_low, xor-lt, xor_cancel}
use weeper_vm.Machine.{Machine, vcode_at}
use weeper_vm.Operand.{Operand, op_none}
use weeper_vm.Handler.Control.{operand_length, next_address}
use weeper_vm.Emulate.Decode.{fetch, parse_header}
use weeper_vm.Emulate.Decode.Header.{operand_of}
use weeper_vm.Compiler.{Parsed, operand_bytes, spec_of, big_bytes, little_3, correct_fallthrough}
use weeper_vm.Compiler.Bytes.{BytesAt}

take_first : (n : ℕ) (zs ts : List ℕ) → n ≡ length zs → take n (zs ++ ts) ≡ zs
take_first n zs ts e = rw e (take-append zs ts)

regroup : (h xs ys ts : List ℕ) → h ++ (xs ++ (ys ++ ts)) ≡ (h ++ (xs ++ ys)) ++ ts
regroup h xs ys ts = rw (append_assoc, append_assoc)

-- The last three bytes are replaced.
pub correct_fallthrough-eq :
    (h xs ys : List ℕ) (ft : ℕ)
    → correct_fallthrough (h ++ (xs ++ (ys ++ (0xff ∷ 0xff ∷ 0xff ∷ [])))) ft
      ≡ h ++ (xs ++ (ys ++ little_3 (bit_xor ft 0xdc2606)))
unfolding correct_fallthrough
correct_fallthrough-eq h xs ys ft =
    let zs = h ++ (xs ++ ys) in
    let ff = 0xff ∷ 0xff ∷ 0xff ∷ [] in
    let word = little_3 (bit_xor ft 0xdc2606) in
    let e : length (zs ++ ff) - 3 ≡ length zs = omega (arith, length-append zs ff) in
    rw (regroup h xs ys ff, take_first (length (zs ++ ff) - 3) zs ff e) (sym (regroup h xs ys word))

pub length-big_bytes : (n x : ℕ) → length (big_bytes n x) ≡ n
length-big_bytes zero x = refl
length-big_bytes (suc n) x = ap suc (length-big_bytes n x)

pub big_bytes-All : (n x : ℕ) → All (λ b. b < 256) (big_bytes n x)
big_bytes-All zero x = tt
big_bytes-All (suc n) x = (omega arith, big_bytes-All n x)

pub operand_bytes-length :
    (p : Parsed) (at : ℕ) (xs : List ℕ)
    → operand_bytes p ≡ some xs
    → length xs ≡ operand_length (operand_of (spec_of p) at)
unfolding operand_bytes
operand_bytes-length p at xs e = ground (arith, length-big_bytes (p.l + 1) p.x)

either_bytes :
    (b c : Bool) (ys xs : List ℕ)
    → All (λ b. b < 256) ys
    → (if b then some [] else if c then some ys else none) ≡ some xs
    → All (λ b. b < 256) xs
either_bytes true c ys xs h e = subst (All (λ b. b < 256)) (some-injective [] xs e) tt
either_bytes false true ys xs h e = subst (All (λ b. b < 256)) (some-injective ys xs e) h
either_bytes false false ys xs h e = cc

pub operand_bytes-All :
    (p : Parsed) (xs : List ℕ) → operand_bytes p ≡ some xs → All (λ b. b < 256) xs
unfolding operand_bytes
operand_bytes-All p xs e =
    either_bytes (p.t == op_none) (ltb p.x (256 ^ (p.l + 1))) (big_bytes (p.l + 1) p.x) xs
      (big_bytes-All (p.l + 1) p.x) e

-- A code that goes on has a next byte.
pub next_byte :
    (p : Parsed) (xs : List ℕ) (ft : ℕ)
    → operand_bytes p ≡ some xs
    → (y : ℕ) × (rest : List ℕ) × (y < 256) × (xs ++ little_3 ft ≡ y ∷ rest)
next_byte p [] ft e = (ft % 256, _, omega arith, refl)
next_byte p (x ∷ xs) ft e = (x, _, (operand_bytes-All p (x ∷ xs) e).0, refl)

vcode_at-bytes :
    (m : Machine) (at i : ℕ) (ys : List ℕ)
    → BytesAt m at ys
    → i < length ys
    → vcode_at m (at + i) ≡ lift (get_elem? ys i)
unfolding vcode_at
vcode_at-bytes m at i ys h lt = ap lift (h i lt)

first_byte :
    (m : Machine) (at b : ℕ) (rest : List ℕ) → BytesAt m at (b ∷ rest) → vcode_at m at ≡ ok b
first_byte m at b rest h =
    let e : at ≡ at + 0 = omega arith in
    ap (λ (n : ℕ). vcode_at m n) e ∙ vcode_at-bytes m at 0 (b ∷ rest) h (omega arith)

pub fetch-at :
    (m : Machine) (vip b0 b1 b2 : ℕ) (rest : List ℕ)
    → BytesAt m vip (b0 ∷ b1 ∷ b2 ∷ rest)
    → fetch m vip ≡ ok (parse_header b0 b1 b2)
unfolding fetch
fetch-at m vip b0 b1 b2 rest h =
    let ys = b0 ∷ b1 ∷ b2 ∷ rest in
    rw (
      first_byte m vip b0 (b1 ∷ b2 ∷ rest) h,
      vcode_at-bytes m vip 1 ys h (omega arith),
      vcode_at-bytes m vip 2 ys h (omega arith),
    )

pub little_3-word :
    (x : ℕ)
    → x < 2 ^ 24
    → bit_or (bit_or (x % 256) ((x / 256 % 256) <<< 8)) ((x / 65536) <<< 16) ≡ x
little_3-word x h = ground (
  arith,
  or_join_low 8 (x / 256 % 256) (x % 256),
  or_join_low 16 (x / 65536) (x / 256 % 256 * 256 + x % 256),
)

pub next_address-at :
    (m : Machine) (vip : ℕ) (op1 op2 : Operand) (ft : ℕ)
    → ft < 2 ^ 24
    → vip + operand_length op1 + operand_length op2 + 5 < 2 ^ 31
    → BytesAt m (vip + operand_length op1 + operand_length op2 + 3) (little_3 (bit_xor ft 0xdc2606))
    → next_address m vip op1 op2 ≡ ok ft
unfolding next_address
next_address-at m vip op1 op2 ft hf hv h =
    let n = vip + operand_length op1 + operand_length op2 + 3 in
    let word = bit_xor ft 0xdc2606 in
    let e : u32 n ≡ n = omega arith in
    rw
      (
        e,
        ltb-true (n + 2) (2 ^ 31) (omega arith),
        first_byte m n (word % 256) ((word / 256 % 256) ∷ (word / 65536) ∷ []) h,
        vcode_at-bytes m n 1 (little_3 word) h (omega arith),
        vcode_at-bytes m n 2 (little_3 word) h (omega arith),
      )
      (ap ok
        (rw (little_3-word word (xor-lt 24 ft 0xdc2606 hf (omega arith))) (xor_cancel ft 0xdc2606)))
