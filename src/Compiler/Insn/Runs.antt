-- ===== src/Compiler/Insn/Runs.antt =====
-- The machine does with a compiled instruction what the assembly language says.
use weeper_vm.Base.{ℕ, ◌+◌, ◌^◌, ◌<◌, ◌≡◌, subst, List, ok, Option, some, length}
use weeper_vm.Machine.{Machine}
use weeper_vm.Operand.{Operand}
use weeper_vm.Handler.Sys.{Kernel}
use weeper_vm.Handler.Control.{next_address}
use weeper_vm.Invariant.{IsWf}
use weeper_vm.Emulate.{dispatch, emulate_step}
use weeper_vm.Compiler.Bytes.{BytesAt}
use weeper_vm.Compiler.Meaning.{Source}
use weeper_vm.Compiler.Insn.{compile_insn, Means, Names, AreSources}
use weeper_vm.Compiler.Insn.Parts.{compile_insn_parts}
use weeper_vm.Compiler.Insn.Place.{step-dispatch, first, second, next_lem}
use weeper_vm.Compiler.Insn.Reads.{
  maybe-IsSpec, first_source, second_source, first-Means, second-Means, first-Names,
}

-- What the machine does with the bytes of an instruction.
abbrev pub Runs :
    (k : Kernel) (m : Machine) (vip c ft : ℕ) (a b : Option Source) (op1 op2 : Operand) → Type 0
Runs k m vip c ft a b op1 op2 =
    (emulate_step k m vip ≡ dispatch k m vip c op1 op2)
    × Means m op1 a
    × Means m op2 b
    × (next_address m vip op1 op2 ≡ ok ft)
    × Names m op1 a

-- The machine does with a compiled instruction what the assembly language says. Whatever left half
-- and cipher are drawn, let the compiler pack an opcode and up to two operands with sizes and
-- registers of the language, and let the bytes stand in the code at `vip`, below 2 GiB. From a
-- well-formed state the round at `vip` dispatches that opcode with two operands that
-- `getOperandData` reads as what they mean and which have a type, a missing one being without; the
-- next address behind the instruction is the one that the compiler put there, and a register as the
-- first operand is named by the operand's byte.
pub emulate_step-compile_insn :
    (k : Kernel) (m : Machine) (vip l o c ft : ℕ) (a b : Option Source) (bytes : List ℕ)
    → IsWf m
    → AreSources a b
    → l < 32
    → o < 4
    → c < 32
    → ft < 2 ^ 24
    → compile_insn l o c ft a b ≡ some bytes
    → vip + length bytes < 2 ^ 31
    → BytesAt m vip bytes
    → (op1 : Operand) × (op2 : Operand) × Runs k m vip c ft a b op1 op2
emulate_step-compile_insn k m vip l o c ft a b bytes wf hs hl ho hc hf e hv h =
    let (p, q, xs, ys, ep, eq, ex, ey, all) = compile_insn_parts l o c ft a b bytes e in
    let hv' = subst (λ zs. vip + length zs < 2 ^ 31) all hv in
    let h' = subst (BytesAt m vip) all h in
    (
      first k m vip l o c ft p q xs ys,
      second k m vip l o c ft p q xs ys,
      (
        step-dispatch k m vip l o c p q _ hl ho hc (maybe-IsSpec a p (first_source a b hs) ep)
            (maybe-IsSpec b q (second_source a b hs) eq) h',
        first-Means k m vip l o c ft p q xs ys a b wf hs ep ex ey h',
        second-Means k m vip l o c ft p q xs ys a b wf hs ep eq ex ey h',
        next_lem k m vip l o c ft p q xs ys hf hv' ex ey h',
        first-Names k m vip l o c ft p q xs ys a b hs ep ex h',
      ),
    )
