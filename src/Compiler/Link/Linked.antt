-- ===== src/Compiler/Link/Linked.antt =====
-- What the loop that corrects the addresses returns.
use mathlib.Core.List.{append_assoc, append-nil}
use mathlib.Core.Option.{some-injective}
use weeper_vm.Base.Bits.{xor-lt, xor_cancel}
use weeper_vm.Base.{
  ℕ, zero, suc, ◌+◌, ◌-◌, ◌^◌, ◌≤◌, ◌<◌, ◌≡◌, refl, sym, ◌∙◌, ap, subst, arith, List, [], ◌∷◌, ◌++◌,
  map, Option, some, none, length, take, get_elem?, All, Bool, true, false, ltb, bit_xor,
  if◌then◌else◌,
}
use weeper_vm.Compiler.{little_3, correct_fallthrough}
use weeper_vm.Compiler.Insn.Parts.{All-append}
use weeper_vm.Compiler.Link.{total, join, reordering, next_of, link_loop, link}
use weeper_vm.Compiler.Link.Offsets.{correct_fallthrough-length, offsets_stay}

-- A packed instruction has its header at least.
abbrev pub IsLong : List ℕ × ℕ → Type 0
IsLong t = 3 ≤ length t.0

-- The packed instruction with an address of 24 bits behind it, which is that of its successor if it
-- has one.
abbrev Corrected : List (List ℕ) → List ℕ → List ℕ × ℕ → List ℕ → Type 0
Corrected out indices t x =
    (next : ℕ) × (x ≡ correct_fallthrough t.0 next)
    × (next < 2 ^ 24)
    × ((dst : ℕ) → reordering indices (t.1 + 1) ≡ some dst → next ≡ total (take dst out))

-- The corrected instructions of `todo` in the finished code `out`.
abbrev Linked : List (List ℕ) → List ℕ → List (List ℕ × ℕ) → List (List ℕ) → Type 0
Linked out indices [] [] = Unit
Linked out indices [] (x ∷ xs) = ⊥
Linked out indices (t ∷ todo) [] = ⊥
Linked out indices (t ∷ todo) (x ∷ xs) = Corrected out indices t x × Linked out indices todo xs

-- What the loop returns: what was done, and the rest corrected.
abbrev Result : List ℕ → List (List ℕ) → List (List ℕ × ℕ) → List (List ℕ) → Type 0
Result indices done todo out =
    (xs : List (List ℕ)) × (out ≡ done ++ xs)
    × Linked out indices todo xs
    × ((d : ℕ) → total (take d out) ≡ total (take d (done ++ map (λ t. t.0) todo)))

passed :
    (b : Bool) (o : Option (List (List ℕ))) (out : List (List ℕ))
    → (if b then o else none) ≡ some out
    → (b ≡ true) × (o ≡ some out)
passed true o out e = (refl, e)
passed false o out e = cc

below : (next : ℕ) → ltb (bit_xor next 0xdc2606) (2 ^ 24) ≡ true → next < 2 ^ 24
below next h =
    let small : bit_xor next 0xdc2606 < 2 ^ 24 = ground arith in
    omega (
      arith,
      xor_cancel next 0xdc2606,
      xor-lt 24 (bit_xor next 0xdc2606) 0xdc2606 small (omega arith),
    )

next_of-dst :
    (indices : List ℕ) (compiled : List (List ℕ)) (old ft dst : ℕ)
    → reordering indices (old + 1) ≡ some dst
    → next_of indices compiled old ft ≡ total (take dst compiled)
unfolding next_of
next_of-dst indices compiled old ft dst e = rw (next_of, e) refl

link_loop-Result :
    (indices : List ℕ) (done : List (List ℕ)) (todo : List (List ℕ × ℕ)) (ft : ℕ)
    (out : List (List ℕ))
    → All IsLong todo
    → link_loop indices done todo ft ≡ some out
    → Result indices done todo out
unfolding link_loop
link_loop-Result indices done [] ft out long e =
    let same : done ≡ out = some-injective _ _ e in
    let plain : out ≡ done ++ [] = sym same ∙ sym (append-nil done) in
    ([], plain, tt, λ d. ap (λ s. total (take d s)) plain)
link_loop-Result indices done ((packed, old) ∷ todo) ft out long e =
    let compiled = done ++ (packed ∷ map (λ t. t.0) todo) in
    let next = next_of indices compiled old ft in
    let x = correct_fallthrough packed next in
    let (small, e') =
      passed (ltb (bit_xor next 0xdc2606) (2 ^ 24))
        (link_loop indices (done ++ (x ∷ [])) todo (bit_xor next 0xdc2606)) out e in
    let (xs, whole, linked, same) =
      link_loop-Result indices (done ++ (x ∷ [])) todo (bit_xor next 0xdc2606) out long.1 e' in
    let stay : (d : ℕ) → total (take d out) ≡ total (take d compiled) = λ d.
      same d
      ∙ offsets_stay done x packed (map (λ t. t.0) todo) d
          (correct_fallthrough-length packed next long.0) in
    (
      x ∷ xs,
      whole ∙ append_assoc done (x ∷ []) xs,
      (
        (
          next,
          refl,
          below next small,
          λ dst h. next_of-dst indices compiled old ft dst h ∙ sym (stay dst),
        ),
        linked,
      ),
      stay,
    )

-- One of the linked instructions.
Linked-at :
    (out : List (List ℕ)) (indices : List ℕ) (todo : List (List ℕ × ℕ)) (xs : List (List ℕ)) (j : ℕ)
    (t : List ℕ × ℕ)
    → Linked out indices todo xs
    → get_elem? todo j ≡ some t
    → (x : List ℕ) × (get_elem? xs j ≡ some x) × Corrected out indices t x
Linked-at out indices [] xs j t h e = cc
Linked-at out indices (u ∷ todo) [] j t h e = absurd h
Linked-at out indices (u ∷ todo) (x ∷ xs) zero t h e =
    (x, refl, subst (λ v. Corrected out indices v x) (some-injective _ _ e) h.0)
Linked-at out indices (u ∷ todo) (x ∷ xs) (suc j) t h e = Linked-at out indices todo xs j t h.1 e

-- What stands at a place of the finished code: the instruction of that place with its address.
pub link-at :
    (shuffled : List (List ℕ × ℕ)) (last : ℕ) (out : List (List ℕ)) (j : ℕ) (t : List ℕ × ℕ)
    → All IsLong shuffled
    → link shuffled last ≡ some out
    → get_elem? shuffled j ≡ some t
    → (next : ℕ) × (get_elem? out j ≡ some (correct_fallthrough t.0 next))
      × (next < 2 ^ 24)
      × ((dst : ℕ)
          → reordering (map (λ t. t.1) shuffled) (t.1 + 1) ≡ some dst
          → next ≡ total (take dst out))
unfolding link
link-at shuffled last out j t long e at =
    let indices = map (λ t. t.1) shuffled in
    let (xs, whole, links, _) = link_loop-Result indices [] shuffled last out long e in
    let (x, here, (next, same, small, succ)) = Linked-at out indices shuffled xs j t links at in
    (next, ap (λ s. get_elem? s j) whole ∙ here ∙ ap some same, small, succ)

take-All : (n : ℕ) (xs : List ℕ) → All (λ x. x < 256) xs → All (λ x. x < 256) (take n xs)
take-All zero xs h = tt
take-All (suc n) [] h = tt
take-All (suc n) (x ∷ xs) h = (h.0, take-All n xs h.1)

correct_fallthrough-All :
    (packed : List ℕ) (next : ℕ)
    → next < 2 ^ 24
    → All (λ x. x < 256) packed
    → All (λ x. x < 256) (correct_fallthrough packed next)
unfolding correct_fallthrough
correct_fallthrough-All packed next hn h =
    let word : bit_xor next 0xdc2606 < 2 ^ 24 = xor-lt 24 next 0xdc2606 hn (omega arith) in
    All-append (take (length packed - 3) packed) (little_3 (bit_xor next 0xdc2606))
      (take-All (length packed - 3) packed h) (omega (arith, word))

Linked-All :
    (out : List (List ℕ)) (indices : List ℕ) (todo : List (List ℕ × ℕ)) (xs : List (List ℕ))
    → Linked out indices todo xs
    → All (λ t. All (λ x. x < 256) t.0) todo
    → All (λ x. x < 256) (join xs)
Linked-All out indices [] [] h b = tt
Linked-All out indices [] (x ∷ xs) h b = absurd h
Linked-All out indices (t ∷ todo) [] h b = absurd h
Linked-All out indices (t ∷ todo) (x ∷ xs) ((next, e, small, _), h) b =
    All-append x (join xs)
      (subst (All (λ x. x < 256)) (sym e) (correct_fallthrough-All t.0 next small b.0))
      (Linked-All out indices todo xs h b.1)

-- The finished code is made of bytes.
pub link-All :
    (shuffled : List (List ℕ × ℕ)) (last : ℕ) (out : List (List ℕ))
    → All IsLong shuffled
    → All (λ t. All (λ x. x < 256) t.0) shuffled
    → link shuffled last ≡ some out
    → All (λ x. x < 256) (join out)
unfolding link
link-All shuffled last out long bytes e =
    let indices = map (λ t. t.1) shuffled in
    let (xs, whole, links, _) = link_loop-Result indices [] shuffled last out long e in
    subst (λ ys. All (λ x. x < 256) (join ys)) (sym whole)
      (Linked-All out indices shuffled xs links bytes)
