-- ===== src/Compiler/Insn/Reads.antt =====
-- The operands of an instruction, as the compiler has parsed them and as the machine reads them.
use mathlib.Core.Option.{some-injective}
use weeper_vm.Base.{
  ℕ, ◌+◌, ◌/◌, ◌%◌, ◌<◌, ◌≡◌, refl, sym, subst, ap, ap₂, ◌∙◌, arith, List, [], ◌∷◌, ◌++◌, ok,
  Option, some, none, bit_xor,
}
use weeper_vm.Machine.{Machine}
use weeper_vm.Operand.{op_none, op_reg, operand_byte}
use weeper_vm.Handler.Sys.{Kernel}
use weeper_vm.Invariant.{IsWf}
use weeper_vm.Emulate.Decode.Header.{IsSpec}
use weeper_vm.Compiler.{Parsed, operand_bytes, spec_of, big_bytes, little_3}
use weeper_vm.Compiler.Bytes.{BytesAt, operand_byte-at}
use weeper_vm.Compiler.Meaning.{Source, reg, imm, mem_sum, mem_disp, mem_base, mem_at, IsSource}
use weeper_vm.Compiler.Meaning.Encodes.{parse_operand-Encodes}
use weeper_vm.Compiler.Meaning.Operands.{operand_bytes-big, Encodes-there}
use weeper_vm.Compiler.Insn.{parse_maybe, Means, Names, AreSources}
use weeper_vm.Compiler.Insn.Place.{
  Encodes-IsSpec, first, second, insn_bytes, tail_at, first_means, second_means,
}

-- The operands of an instruction, as the compiler has parsed them.
pub maybe-IsSpec :
    (a : Option Source) (p : Parsed)
    → ((s : Source) → a ≡ some s → IsSource s)
    → parse_maybe a ≡ some p
    → IsSpec (spec_of p)
unfolding parse_maybe
maybe-IsSpec none p h e = subst (λ q. IsSpec (spec_of q)) (some-injective _ _ e) (omega arith)
maybe-IsSpec (some s) p h e = Encodes-IsSpec s p (h s refl) (parse_operand-Encodes s p (h s refl) e)

pub first_source : (a b : Option Source) → AreSources a b → (s : Source) → a ≡ some s → IsSource s
first_source none b h s e = cc
first_source (some a) none h s e = subst IsSource (some-injective _ _ e) h
first_source (some a) (some b) h s e = subst IsSource (some-injective _ _ e) h.0

pub second_source : (a b : Option Source) → AreSources a b → (s : Source) → b ≡ some s → IsSource s
second_source a none h s e = cc
second_source none (some b) h s e = absurd h
second_source (some a) (some b) h s e = subst IsSource (some-injective _ _ e) h.1

pub missing_lem : (p : Parsed) → parse_maybe none ≡ some p → p.t ≡ op_none
unfolding parse_maybe
missing_lem p e = sym (ap (λ (q : Parsed). q.t) (some-injective _ _ e))

module _ (k : Kernel) (m : Machine) (vip l o c ft : ℕ) (p q : Parsed) (xs ys : List ℕ) where
  pub first-Means :
      (a b : Option Source)
      → IsWf m
      → AreSources a b
      → parse_maybe a ≡ some p
      → operand_bytes p ≡ some xs
      → operand_bytes q ≡ some ys
      → BytesAt m vip (insn_bytes k m vip l o c ft p q xs ys)
      → Means m (first k m vip l o c ft p q xs ys) a
  unfolding parse_maybe
  first-Means none b wf hs ep ex ey h = missing_lem p ep
  first-Means (some s) b wf hs ep ex ey h =
      let source = first_source (some s) b hs s refl in
      (
        Encodes-there s p (parse_operand-Encodes s p source ep),
        λ trash. first_means k m vip l o c ft p q xs ys s trash wf source ep ex ey h,
      )

  pub register_byte :
      (v r : ℕ)
      → p.t ≡ op_reg
      → p.l ≡ 0
      → p.x ≡ r
      → r < 16
      → operand_bytes p ≡ some xs
      → BytesAt m vip (insn_bytes k m vip l o c ft p q xs ys)
      → operand_byte m (first k m vip l o c ft p q xs ys) 0 ≡ ok r
  register_byte v r et el er small ex h =
      let op = first k m vip l o c ft p q xs ys in
      let bytes = operand_bytes-big p (omega (arith, et)) xs ex in
      let tail = ys ++ little_3 (bit_xor ft 0xdc2606) in
      let whole : xs ≡ r / 1 % 256 ∷ [] = bytes ∙ ap₂ (λ (n x : ℕ). big_bytes (n + 1) x) el er in
      let there =
        subst (λ zs. BytesAt m (vip + 3) (zs ++ tail)) whole
          (tail_at k m vip l o c ft p q xs ys h) in
      let low : r / 1 % 256 ≡ r = omega arith in
      operand_byte-at m op ((r / 1 % 256) ∷ tail) 0 there (omega arith) ∙ ap ok low

  pub first-Names :
      (a b : Option Source)
      → AreSources a b
      → parse_maybe a ≡ some p
      → operand_bytes p ≡ some xs
      → BytesAt m vip (insn_bytes k m vip l o c ft p q xs ys)
      → Names m (first k m vip l o c ft p q xs ys) a
  unfolding parse_maybe
  first-Names none b hs ep ex h = tt
  first-Names (some (reg v r)) b hs ep ex h =
      let source = first_source (some (reg v r)) b hs (reg v r) refl in
      let (et, ev, el, er) = parse_operand-Encodes (reg v r) p source ep in
      (et, ev, register_byte v r et el er source.1 ex h)
  first-Names (some (imm v x)) b hs ep ex h = tt
  first-Names (some (mem_sum v bv br dv dr)) b hs ep ex h = tt
  first-Names (some (mem_disp v bv br dv d)) b hs ep ex h = tt
  first-Names (some (mem_base v bv br)) b hs ep ex h = tt
  first-Names (some (mem_at v av x)) b hs ep ex h = tt

  pub second-Means :
      (a b : Option Source)
      → IsWf m
      → AreSources a b
      → parse_maybe a ≡ some p
      → parse_maybe b ≡ some q
      → operand_bytes p ≡ some xs
      → operand_bytes q ≡ some ys
      → BytesAt m vip (insn_bytes k m vip l o c ft p q xs ys)
      → Means m (second k m vip l o c ft p q xs ys) b
  unfolding parse_maybe
  second-Means a none wf hs ep eq ex ey h = missing_lem q eq
  second-Means none (some s) wf hs ep eq ex ey h = absurd hs
  second-Means (some a) (some s) wf hs ep eq ex ey h = (
    Encodes-there s q (parse_operand-Encodes s q hs.1 eq),
    λ trash.
        second_means k m vip l o c ft p q xs ys s trash wf hs.1 eq
          (Encodes-there a p (parse_operand-Encodes a p hs.0 ep)) ex ey h,
  )
