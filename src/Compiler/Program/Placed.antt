-- ===== src/Compiler/Program/Placed.antt =====
-- Where the packed instructions of a program stand.
use mathlib.Core.Option.{some-injective}
use weeper_vm.Base.{
  ℕ, suc, ◌+◌, ◌<◌, ◌≡◌, refl, sym, ◌∙◌, ap, subst, arith, some, List, [], ◌∷◌, All, get_elem?, map,
}
use weeper_vm.Compiler.Meaning.{Source}
use weeper_vm.Compiler.Insn.Parts.{two_options}
use weeper_vm.Compiler.Link.{Item, pack_insn, reordering}
use weeper_vm.Compiler.Link.Linked.{IsLong}
use weeper_vm.Compiler.Link.Order.{pack_insn-length, pack_insn-All}
use weeper_vm.Compiler.Program.{Line, line_item, exit_item, items, zip_packed, IsShuffle}
use weeper_vm.Compiler.Program.Shuffle.{Numbered, IsShuffle-place}

abbrev pub Packed : Type 0
Packed = List ℕ × ℕ

abbrev pub indices : List Packed → List ℕ
indices us = map (λ t. t.1) us

-- An instruction stands, packed, where the table says.
abbrev pub Placed : List Packed → Item → Type 0
Placed us i =
    (packed : List ℕ) × (p : ℕ) × (pack_insn i ≡ some packed)
    × (reordering (indices us) i.old ≡ some p)
    × (get_elem? us p ≡ some (packed, i.old))

zip_packed_parts :
    (i : Item) (is : List Item) (ts : List Packed)
    → zip_packed (i ∷ is) ≡ some ts
    → (packed : List ℕ) × (rest : List Packed) × (pack_insn i ≡ some packed)
      × (zip_packed is ≡ some rest)
      × (ts ≡ (packed, i.old) ∷ rest)
unfolding zip_packed
zip_packed_parts i is ts e =
    let (packed, rest, ep, er, e') =
      two_options (pack_insn i) (zip_packed is) (λ packed rest. some ((packed, i.old) ∷ rest)) ts
        e in
    (packed, rest, ep, er, sym (some-injective _ _ e'))

-- The packed instructions are numbered, have a header at least, and are made of bytes.
pub zip_packed-Numbered :
    (left cipher : ℕ → ℕ) (n : ℕ) (cs : List Line) (e : Source) (ts : List Packed)
    → zip_packed (items left cipher n cs e) ≡ some ts
    → Numbered n ts
unfolding zip_packed
zip_packed-Numbered left cipher n [] e ts h =
    let (packed, rest, _, er, same) = zip_packed_parts (exit_item left cipher n e) [] ts h in
    subst (Numbered n) (ap (λ r. (packed, n) ∷ r) (some-injective _ _ er) ∙ sym same) (refl, tt)
zip_packed-Numbered left cipher n (c ∷ cs) e ts h =
    let (packed, rest, _, er, same) =
      zip_packed_parts (line_item left cipher n c) (items left cipher (suc n) cs e) ts h in
    subst (Numbered n) (sym same) (refl, zip_packed-Numbered left cipher (suc n) cs e rest er)

pub zip_packed-All :
    (is : List Item) (ts : List Packed)
    → zip_packed is ≡ some ts
    → All IsLong ts × All (λ t. All (λ x. x < 256) t.0) ts
unfolding zip_packed
zip_packed-All [] ts h =
    subst (λ us. All IsLong us × All (λ t. All (λ x. x < 256) t.0) us) (some-injective _ _ h)
      (tt, tt)
zip_packed-All (i ∷ is) ts h =
    let (packed, rest, ep, er, same) = zip_packed_parts i is ts h in
    let (long, bytes) = zip_packed-All is rest er in
    subst (λ us. All IsLong us × All (λ t. All (λ x. x < 256) t.0) us) (sym same)
      ((pack_insn-length i packed ep, long), (pack_insn-All i packed ep, bytes))

-- All instructions of the program are placed.
pub zip_packed-Placed :
    (ts us : List Packed) (is : List Item) (n : ℕ) (vs : List Packed)
    → Numbered 0 ts
    → IsShuffle ts us
    → zip_packed is ≡ some vs
    → Numbered n vs
    → ((i : ℕ) (t : Packed) → get_elem? vs i ≡ some t → get_elem? ts (n + i) ≡ some t)
    → All (Placed us) is
zip_packed-Placed ts us [] n vs numbered shuffle e h inside = tt
zip_packed-Placed ts us (i ∷ is) n vs numbered shuffle e h inside =
    let (packed, rest, ep, er, same) = zip_packed_parts i is vs e in
    let h' = subst (Numbered n) same h in
    let inside' =
      subst (λ vs. (i : ℕ) (t : Packed) → get_elem? vs i ≡ some t → get_elem? ts (n + i) ≡ some t)
        same inside in
    let here : get_elem? ts n ≡ some (packed, i.old) =
      ap (λ (q : ℕ). get_elem? ts q) (omega arith) ∙ inside' 0 (packed, i.old) refl in
    let (p, place, at) = IsShuffle-place ts us n (packed, i.old) numbered shuffle h'.0 here in
    (
      (packed, p, ep, ap (reordering (indices us)) h'.0 ∙ place, at),
      zip_packed-Placed ts us is (suc n) rest numbered shuffle er h'.1
          (λ j t e. ap (λ (q : ℕ). get_elem? ts q) (omega arith) ∙ inside' (suc j) t e),
    )
