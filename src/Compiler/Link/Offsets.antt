-- ===== src/Compiler/Link/Offsets.antt =====
-- Where the instructions stand in the joined code.
use mathlib.Core.Option.{some-injective}
use weeper_vm.Base.{
  ℕ, zero, suc, ◌+◌, ◌-◌, ◌≤◌, ◌≡◌, refl, sym, ap, subst, arith, List, [], ◌∷◌, ◌++◌, Option, some,
  none, length, length-append, take, get_elem?, ◌==◌, if◌then◌else◌, Bool, true, false, bit_xor,
  ◌⊎◌, inl, inr,
}
use weeper_vm.Machine.{Machine}
use weeper_vm.Compiler.{correct_fallthrough, little_3}
use weeper_vm.Compiler.Bytes.{BytesAt, BytesAt-left, BytesAt-right}
use weeper_vm.Compiler.Link.{total, join, reordering}

length-take_le : (k : ℕ) (xs : List ℕ) → k ≤ length xs → length (take k xs) ≡ k
length-take_le zero xs h = refl
length-take_le (suc k) [] h = absurd (omega arith)
length-take_le (suc k) (x ∷ xs) h = ap suc (length-take_le k xs (omega arith))

-- The address is replaced by one of the same length.
pub correct_fallthrough-length :
    (packed : List ℕ) (next : ℕ)
    → 3 ≤ length packed
    → length (correct_fallthrough packed next) ≡ length packed
unfolding correct_fallthrough
correct_fallthrough-length packed next h = omega (
  arith,
  length-append (take (length packed - 3) packed) (little_3 (bit_xor next 0xdc2606)),
  length-take_le (length packed - 3) packed (omega arith),
)

-- So no instruction moves.
pub offsets_stay :
    (done : List (List ℕ)) (x p : List ℕ) (rest : List (List ℕ)) (d : ℕ)
    → length x ≡ length p
    → total (take d ((done ++ (x ∷ [])) ++ rest)) ≡ total (take d (done ++ (p ∷ rest)))
offsets_stay [] x p rest zero e = refl
offsets_stay [] x p rest (suc d) e = ap (λ (n : ℕ). n + total (take d rest)) e
offsets_stay (y ∷ done) x p rest zero e = refl
offsets_stay (y ∷ done) x p rest (suc d) e =
    ap (λ (n : ℕ). length y + n) (offsets_stay done x p rest d e)

-- The instruction of a place stands behind those before it.
pub BytesAt-join :
    (m : Machine) (at : ℕ) (out : List (List ℕ)) (j : ℕ) (x : List ℕ)
    → BytesAt m at (join out)
    → get_elem? out j ≡ some x
    → BytesAt m (at + total (take j out)) x
BytesAt-join m at [] j x h e = cc
BytesAt-join m at (s ∷ out) zero x h e =
    let at_s = BytesAt-left m at s (join out) h in
    subst (BytesAt m (at + 0)) (some-injective s x e)
      (subst (λ (n : ℕ). BytesAt m n s) (omega arith) at_s)
BytesAt-join m at (s ∷ out) (suc j) x h e =
    let later = BytesAt-join m (at + length s) out j x (BytesAt-right m at s (join out) h) e in
    subst (λ (n : ℕ). BytesAt m n x) (omega arith) later

-- And it ends within the code.
pub total-take :
    (out : List (List ℕ)) (j : ℕ) (x : List ℕ)
    → get_elem? out j ≡ some x
    → total (take j out) + length x ≤ total out
total-take [] j x e = cc
total-take (s ∷ out) zero x e =
    let same : length s ≡ length x = ap length (some-injective s x e) in omega (arith, same)
total-take (s ∷ out) (suc j) x e = omega (arith, total-take out j x e)

found :
    (b : Bool) (rest : Option ℕ) (dst : ℕ)
    → (if b then some 0 else elim rest [ none ↦ none | some new ↦ some (suc new) ]) ≡ some dst
    → ((b ≡ true) × (dst ≡ 0)) ⊎ ((new : ℕ) × (rest ≡ some new) × (dst ≡ suc new))
found true rest dst e = inl (refl, sym (some-injective _ _ e))
found false none dst e = cc
found false (some new) dst e = inr (new, refl, sym (some-injective _ _ e))

-- What the table gives is the place of the index.
pub reordering-place :
    (indices : List ℕ) (old dst : ℕ)
    → reordering indices old ≡ some dst
    → get_elem? indices dst ≡ some old
unfolding reordering
reordering-place [] old dst e = cc
reordering-place (i ∷ indices) old dst e = elim (found (i == old) (reordering indices old) dst e) [
  | inl (h, z) ↦
      subst (λ (n : ℕ). get_elem? (i ∷ indices) n ≡ some old) (sym z) (ap some (ground arith))
  | inr (new, h, z) ↦
      subst (λ (n : ℕ). get_elem? (i ∷ indices) n ≡ some old) (sym z)
        (reordering-place indices old new h)
]
