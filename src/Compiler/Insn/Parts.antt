-- ===== src/Compiler/Insn/Parts.antt =====
-- The parts of the bytes of a compiled instruction.
use mathlib.Core.Option.{some-injective}
use weeper_vm.Base.Bits.{xor-lt}
use weeper_vm.Base.{
  ℕ, ◌^◌, ◌<◌, ◌≡◌, refl, sym, subst, ap, ◌∙◌, arith, List, [], ◌∷◌, ◌++◌, Option, some, none,
  bit_xor, All,
}
use weeper_vm.Emulate.Decode.Header.{compile_header, compile_opcode_r}
use weeper_vm.Compiler.{
  Parsed, operand_bytes, spec_of, big_bytes, little_3, pack, correct_fallthrough,
}
use weeper_vm.Compiler.Meaning.{Source}
use weeper_vm.Compiler.Insn.{parse_maybe, compile_insn}
use weeper_vm.Compiler.Insn.Layout.{correct_fallthrough-eq, big_bytes-All, operand_bytes-All}

-- Two results that are both there.
pub two_options :
    {A B C : Type 0} (o : Option A) (o' : Option B) (f : A → B → Option C) (z : C)
    → (elim o [ none ↦ none | some a ↦ elim o' [ none ↦ none | some b ↦ f a b ] ]) ≡ some z
    → (a : A) × (b : B) × (o ≡ some a) × (o' ≡ some b) × (f a b ≡ some z)
two_options none o' f z e = cc
two_options (some a) none f z e = cc
two_options (some a) (some b) f z e = (a, b, refl, refl, e)

pub one_option :
    {A B : Type 0} (o : Option A) (f : A → B) (z : B)
    → (elim o [ none ↦ none | some a ↦ some (f a) ]) ≡ some z
    → (a : A) × (o ≡ some a) × (f a ≡ z)
one_option none f z e = cc
one_option (some a) f z e = (a, refl, some-injective _ _ e)

-- The parts of a packed instruction.
pub pack_parts :
    (l o c : ℕ) (p q : Parsed) (packed : List ℕ)
    → pack l o c p q ≡ some packed
    → (xs : List ℕ) × (ys : List ℕ) × (operand_bytes p ≡ some xs)
      × (operand_bytes q ≡ some ys)
      × (packed
          ≡ big_bytes 3 (compile_header l o (compile_opcode_r l o c) (spec_of p) (spec_of q))
            ++ (xs ++ (ys ++ (0xff ∷ 0xff ∷ 0xff ∷ []))))
unfolding pack
pack_parts l o c p q packed e =
    let head = big_bytes 3 (compile_header l o (compile_opcode_r l o c) (spec_of p) (spec_of q)) in
    let (xs, ys, ex, ey, e') =
      two_options (operand_bytes p) (operand_bytes q)
        (λ xs ys. some (head ++ (xs ++ (ys ++ (0xff ∷ 0xff ∷ 0xff ∷ []))))) packed e in
    (xs, ys, ex, ey, sym (some-injective _ _ e'))

-- The parts of the bytes of an instruction.
pub compile_insn_parts :
    (l o c ft : ℕ) (a b : Option Source) (bytes : List ℕ)
    → compile_insn l o c ft a b ≡ some bytes
    → (p : Parsed) × (q : Parsed) × (xs : List ℕ) × (ys : List ℕ) × (parse_maybe a ≡ some p)
      × (parse_maybe b ≡ some q)
      × (operand_bytes p ≡ some xs)
      × (operand_bytes q ≡ some ys)
      × (bytes
          ≡ big_bytes 3 (compile_header l o (compile_opcode_r l o c) (spec_of p) (spec_of q))
            ++ (xs ++ (ys ++ little_3 (bit_xor ft 0xdc2606))))
unfolding compile_insn
compile_insn_parts l o c ft a b bytes e =
    let (p, q, ep, eq, e') =
      two_options (parse_maybe a) (parse_maybe b)
        (λ p q. elim (pack l o c p q) [
          | none ↦ none
          | some packed ↦ some (correct_fallthrough packed ft)
        ])
        bytes e in
    let (packed, epacked, e2) =
      one_option (pack l o c p q) (λ packed. correct_fallthrough packed ft) bytes e' in
    let (xs, ys, ex, ey, eparts) = pack_parts l o c p q packed epacked in
    let header =
      big_bytes 3 (compile_header l o (compile_opcode_r l o c) (spec_of p) (spec_of q)) in
    (
      p,
      q,
      xs,
      ys,
      ep,
      eq,
      ex,
      ey,
      sym e2 ∙ ap (λ z. correct_fallthrough z ft) eparts ∙ correct_fallthrough-eq header xs ys ft,
    )

pub All-append :
    (xs ys : List ℕ) → All (λ x. x < 256) xs → All (λ x. x < 256) ys → All (λ x. x < 256) (xs ++ ys)
All-append [] ys hx hy = hy
All-append (x ∷ xs) ys hx hy = (hx.0, All-append xs ys hx.1 hy)

-- An instruction is made of bytes.
pub compile_insn-All :
    (l o c ft : ℕ) (a b : Option Source) (bytes : List ℕ)
    → ft < 2 ^ 24
    → compile_insn l o c ft a b ≡ some bytes
    → All (λ x. x < 256) bytes
compile_insn-All l o c ft a b bytes hf e =
    let (p, q, xs, ys, _, _, ex, ey, all) = compile_insn_parts l o c ft a b bytes e in
    let word : bit_xor ft 0xdc2606 < 2 ^ 24 = xor-lt 24 ft 0xdc2606 hf (omega arith) in
    subst (All (λ x. x < 256)) (sym all) (
      All-append (big_bytes 3 (compile_header l o (compile_opcode_r l o c) (spec_of p) (spec_of q)))
        _ (big_bytes-All 3 (compile_header l o (compile_opcode_r l o c) (spec_of p) (spec_of q)))
        (All-append xs _ (operand_bytes-All p xs ex)
          (All-append ys _ (operand_bytes-All q ys ey) (omega (arith, word)))))
