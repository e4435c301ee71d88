-- ===== src/Compiler/Link/Order.antt =====
-- Shuffling keeps the order of the program.
use weeper_vm.Base.{
  ℕ, ◌+◌, ◌^◌, ◌≤◌, ◌<◌, ◌≡◌, refl, sym, ◌∙◌, ap, subst, arith, List, [], ◌∷◌, map, Option, some,
  none, length, take, get_elem?, All,
}
use weeper_vm.Machine.{Machine}
use weeper_vm.Operand.{Operand}
use weeper_vm.Handler.Sys.{Kernel}
use weeper_vm.Invariant.{IsWf}
use weeper_vm.Compiler.{pack, correct_fallthrough}
use weeper_vm.Compiler.Bytes.{BytesAt}
use weeper_vm.Compiler.Insn.{parse_maybe, compile_insn, AreSources}
use weeper_vm.Compiler.{big_bytes, spec_of}
use weeper_vm.Emulate.Decode.Header.{compile_header, compile_opcode_r}
use weeper_vm.Compiler.Insn.Layout.{big_bytes-All, operand_bytes-All}
use weeper_vm.Compiler.Insn.Parts.{pack_parts, All-append}
use weeper_vm.Compiler.Insn.Runs.{Runs, emulate_step-compile_insn}
use weeper_vm.Compiler.Link.{Item, pack_insn, total, join, reordering, link}
use weeper_vm.Compiler.Link.Linked.{IsLong, link-at}
use weeper_vm.Compiler.Link.Offsets.{BytesAt-join, total-take, reordering-place}

through :
    {A B C : Type 0} (oa : Option A) (ob : Option B) (f : A → B → Option C) (g : C → C) (z : C)
    → (elim oa [ none ↦ none | some p ↦ elim ob [ none ↦ none | some q ↦ f p q ] ]) ≡ some z
    → (elim oa [
      | none ↦ none
      | some p ↦ elim ob [
        | none ↦ none
        | some q ↦ elim (f p q) [ none ↦ none | some c ↦ some (g c) ]
      ]
    ])
      ≡ some (g z)
through none ob f g z e = cc
through (some p) none f g z e = cc
through (some p) (some q) f g z e = rw e refl

-- A packed instruction with its address corrected is a compiled one.
pub compile_insn-pack :
    (i : Item) (packed : List ℕ) (next : ℕ)
    → pack_insn i ≡ some packed
    → compile_insn i.l i.o i.c next i.a i.b ≡ some (correct_fallthrough packed next)
unfolding pack_insn compile_insn
compile_insn-pack i packed next e =
    through (parse_maybe i.a) (parse_maybe i.b) (pack i.l i.o i.c) (λ c. correct_fallthrough c next)
      packed e

-- Packed from an instruction of the source.
abbrev pub IsPacked : List ℕ × ℕ → Type 0
IsPacked t = (i : Item) × (pack_insn i ≡ some t.0) × (i.old ≡ t.1)

two_results :
    {A B C : Type 0} (oa : Option A) (ob : Option B) (f : A → B → Option C) (z : C)
    → (elim oa [ none ↦ none | some p ↦ elim ob [ none ↦ none | some q ↦ f p q ] ]) ≡ some z
    → (p : A) × (q : B) × (f p q ≡ some z)
two_results none ob f z e = cc
two_results (some p) none f z e = cc
two_results (some p) (some q) f z e = (p, q, e)

pub pack_insn-length : (i : Item) (packed : List ℕ) → pack_insn i ≡ some packed → 3 ≤ length packed
unfolding pack_insn
pack_insn-length i packed e =
    let (p, q, e') = two_results (parse_maybe i.a) (parse_maybe i.b) (pack i.l i.o i.c) packed e in
    let (xs, ys, _, _, parts) = pack_parts i.l i.o i.c p q packed e' in
    subst (λ zs. 3 ≤ length zs) (sym parts) (omega arith)

-- It is made of bytes.
pub pack_insn-All :
    (i : Item) (packed : List ℕ) → pack_insn i ≡ some packed → All (λ x. x < 256) packed
unfolding pack_insn
pack_insn-All i packed e =
    let (p, q, e') = two_results (parse_maybe i.a) (parse_maybe i.b) (pack i.l i.o i.c) packed e in
    let (xs, ys, ex, ey, parts) = pack_parts i.l i.o i.c p q packed e' in
    subst (All (λ x. x < 256)) (sym parts) (
      All-append
        (big_bytes 3
          (compile_header i.l i.o (compile_opcode_r i.l i.o i.c) (spec_of p) (spec_of q)))
        _
        (big_bytes-All 3
          (compile_header i.l i.o (compile_opcode_r i.l i.o i.c) (spec_of p) (spec_of q)))
        (All-append xs _ (operand_bytes-All p xs ex)
          (All-append ys _ (operand_bytes-All q ys ey) (omega arith))))

IsPacked-IsLong : (shuffled : List (List ℕ × ℕ)) → All IsPacked shuffled → All IsLong shuffled
IsPacked-IsLong [] h = tt
IsPacked-IsLong (t ∷ shuffled) ((i, e, _), h) =
    (pack_insn-length i t.0 e, IsPacked-IsLong shuffled h)

-- An instruction stands in the code at the offset of its place.
pub BytesAt-code :
    (m : Machine) (out : List (List ℕ)) (j : ℕ) (bytes : List ℕ)
    → m.vcode ≡ join out
    → get_elem? out j ≡ some bytes
    → BytesAt m (total (take j out)) bytes
BytesAt-code m out j bytes code here =
    subst (λ (n : ℕ). BytesAt m n bytes) (omega arith)
      (BytesAt-join m 0 out j bytes
        (λ n h. ap (λ (q : ℕ). get_elem? m.vcode q) (omega arith) ∙ ap (λ s. get_elem? s n) code)
        here)

-- Shuffling keeps the order of the program. Let packed instructions of the source, in any order of
-- their indices, be linked, and the joined result, below 2 GiB, be the code of a machine in a
-- well-formed state. Take the instruction at any place `j` of the new order, with sizes and
-- registers of the language, whose successor in the source is at the place `dst`. Then the round
-- at the offset of `j` dispatches its opcode with operands that are read as what they mean, and the
-- next address is the offset of the place `dst`, where the index is its own and one.
pub emulate_step-link :
    (k : Kernel) (m : Machine) (shuffled : List (List ℕ × ℕ)) (last : ℕ) (out : List (List ℕ))
    (i : Item) (packed : List ℕ) (j dst : ℕ)
    → IsWf m
    → All IsPacked shuffled
    → link shuffled last ≡ some out
    → m.vcode ≡ join out
    → total out < 2 ^ 31
    → i.l < 32
    → i.o < 4
    → i.c < 32
    → AreSources i.a i.b
    → pack_insn i ≡ some packed
    → get_elem? shuffled j ≡ some (packed, i.old)
    → reordering (map (λ t. t.1) shuffled) (i.old + 1) ≡ some dst
    → (get_elem? (map (λ t. t.1) shuffled) dst ≡ some (i.old + 1))
      × ((op1 : Operand) × (op2 : Operand) × Runs k m
            (total (take j out))
            i.c
            (total (take dst out))
            i.a
            i.b
            op1
            op2)
emulate_step-link k m shuffled last out i packed j dst wf all linked code small hl ho hc sources
      packs at succ =
    let indices = map (λ t. t.1) shuffled in
    let (next, here, near, follows) =
      link-at shuffled last out j (packed, i.old) (IsPacked-IsLong shuffled all) linked at in
    let bytes = correct_fallthrough packed next in
    let fits : total (take j out) + length bytes < 2 ^ 31 =
      omega (arith, total-take out j bytes here) in
    let (op1, op2, runs) =
      emulate_step-compile_insn k m (total (take j out)) i.l i.o i.c next i.a i.b bytes wf sources
        hl ho hc near (compile_insn-pack i packed next packs) fits
        (BytesAt-code m out j bytes code here) in
    (
      reordering-place indices (i.old + 1) dst succ,
      (
        op1,
        op2,
        subst (λ (n : ℕ). Runs k m (total (take j out)) i.c n i.a i.b op1 op2) (follows dst succ)
            runs,
      ),
    )
