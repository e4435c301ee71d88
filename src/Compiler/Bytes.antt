-- ===== src/Compiler/Bytes.antt =====
-- The bytes of an operand in the code, read one by one.
use weeper_vm.Base.{
  ℕ, zero, suc, ◌+◌, ◌<◌, ◌≡◌, refl, ap, ◌∙◌, arith, List, [], ◌∷◌, ◌++◌, lift, get_elem?, length,
  length-append,
}
use weeper_vm.Machine.{Machine, vcode_at}
use weeper_vm.Operand.{Operand, operand_byte}

-- These bytes stand in the code from `at` on.
abbrev pub BytesAt : Machine → ℕ → List ℕ → Type 0
BytesAt m at ys = (i : ℕ) → i < length ys → get_elem? m.vcode (at + i) ≡ get_elem? ys i

get_elem?-append_right :
    (xs ys : List ℕ) (i j : ℕ) → j ≡ length xs + i → get_elem? (xs ++ ys) j ≡ get_elem? ys i
get_elem?-append_right [] ys i j e = ap (λ (n : ℕ). get_elem? ys n) (omega arith)
get_elem?-append_right (x ∷ xs) ys i zero e = absurd (omega arith)
get_elem?-append_right (x ∷ xs) ys i (suc j) e = get_elem?-append_right xs ys i j (omega arith)

get_elem?-append_left :
    (xs ys : List ℕ) (i : ℕ) → i < length xs → get_elem? (xs ++ ys) i ≡ get_elem? xs i
get_elem?-append_left [] ys i h = absurd (omega arith)
get_elem?-append_left (x ∷ xs) ys zero h = refl
get_elem?-append_left (x ∷ xs) ys (suc i) h = get_elem?-append_left xs ys i (omega arith)

-- The part of what stands there.
pub BytesAt-left :
    (m : Machine) (at : ℕ) (xs ys : List ℕ) → BytesAt m at (xs ++ ys) → BytesAt m at xs
BytesAt-left m at xs ys h i lt =
    h i (omega (arith, length-append xs ys)) ∙ get_elem?-append_left xs ys i lt

pub BytesAt-right :
    (m : Machine) (at : ℕ) (xs ys : List ℕ)
    → BytesAt m at (xs ++ ys)
    → BytesAt m (at + length xs) ys
BytesAt-right m at xs ys h i lt =
    ap (λ (n : ℕ). get_elem? m.vcode n) (omega arith)
    ∙ h (length xs + i) (omega (arith, length-append xs ys))
    ∙ get_elem?-append_right xs ys i (length xs + i) refl

pub operand_byte-at :
    (m : Machine) (op : Operand) (ys : List ℕ) (i : ℕ)
    → BytesAt m op.at ys
    → i < length ys
    → operand_byte m op i ≡ lift (get_elem? ys i)
unfolding operand_byte vcode_at
operand_byte-at m op ys i h lt = ap lift (h i lt)
