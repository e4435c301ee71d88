-- ===== src/Compiler/Link.antt =====
-- The shuffled instructions, and how each finds the one that follows it in the source.
pub mod Offsets
pub mod Linked
pub mod Order
use weeper_vm.Base.{
  ℕ, zero, suc, ◌+◌, ◌-◌, ◌^◌, bit_xor, Option, none, some, List, [], ◌∷◌, ◌++◌, map, length, take,
  ltb, ◌==◌, if◌then◌else◌,
}
use weeper_vm.Compiler.{pack, correct_fallthrough}
use weeper_vm.Compiler.Meaning.{Source}
use weeper_vm.Compiler.Insn.{parse_maybe}

-- An instruction of the source with what is drawn for it, and where it stands in the source.
pub record Item : Type 0 where
  pub l : ℕ
  pub o : ℕ
  pub c : ℕ
  pub a : Option Source
  pub b : Option Source
  pub old : ℕ

-- `packed`, before the address behind it is corrected.
unfoldable pub pack_insn : Item → Option (List ℕ)
pack_insn i = elim (parse_maybe i.a) [
  | none ↦ none
  | some p ↦ elim (parse_maybe i.b) [ none ↦ none | some q ↦ pack i.l i.o i.c p q ]
]

-- `sum(len(s) for s in compiled)`
abbrev pub total : List (List ℕ) → ℕ
total [] = 0
total (s ∷ ss) = length s + total ss

-- `reordering[old]`, or none if it is not a key.
unfoldable pub reordering : List ℕ → ℕ → Option ℕ
reordering [] old = none
reordering (i ∷ indices) old =
    let rest = reordering indices old in
    if i == old then some 0 else elim rest [ none ↦ none | some new ↦ some (suc new) ]

-- Where the instruction after this one stands in the file.
unfoldable pub next_of : List ℕ → List (List ℕ) → (old fallthrough : ℕ) → ℕ
next_of indices compiled old fallthrough = elim (reordering indices (old + 1)) [
  | none ↦ fallthrough
  | some dst ↦ total (take dst compiled)
]

-- The loop that corrects the addresses, over the instructions from the first in the new order on:
-- those that are corrected, those that are not, each with its old place, and the last
-- `fallthrough`, which stays for an instruction without a successor. `to_bytes` raises on a number
-- of more than 24 bits.
unfoldable pub link_loop : List ℕ → List (List ℕ) → List (List ℕ × ℕ) → ℕ → Option (List (List ℕ))
link_loop indices done [] fallthrough = some done
link_loop indices done ((packed, old) ∷ todo) fallthrough =
    let next = next_of indices (done ++ (packed ∷ map (λ t. t.0) todo)) old fallthrough in
    let rest =
      link_loop indices (done ++ (correct_fallthrough packed next ∷ [])) todo
        (bit_xor next 0xdc2606) in
    if ltb (bit_xor next 0xdc2606) (2 ^ 24) then rest else none

-- All of it, from the shuffled instructions; `last` is what `fallthrough` is before the loop.
unfoldable pub link : List (List ℕ × ℕ) → (last : ℕ) → Option (List (List ℕ))
link shuffled last = link_loop (map (λ t. t.1) shuffled) [] shuffled last

-- `b''.join(compiled)`
abbrev pub join : List (List ℕ) → List ℕ
join [] = []
join (s ∷ ss) = s ++ join ss
