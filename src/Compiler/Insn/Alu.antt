-- ===== src/Compiler/Insn/Alu.antt =====
-- What a compiled arithmetic or bitwise instruction on a register does.
use weeper_vm.Base.{
  ℕ, ◌+◌, ◌-◌, ◌*◌, ◌%◌, ◌^◌, ◌<◌, ◌≡◌, refl, sym, subst, ap, ap₂, ◌∙◌, arith, List, some, Run, ok,
  length, bit_and, bit_or, bit_xor, ◌>>=◌,
}
use weeper_vm.Machine.{Machine, vcode_at}
use weeper_vm.Operand.{Operand, op_reg, operand_byte, get_operand_data}
use weeper_vm.Handler.Arith.{handle_add, handle_sub, handle_mul, handle_and, handle_or, handle_xor}
use weeper_vm.Handler.Arith.Reg.{span, IsSize, alu-in_width}
use weeper_vm.Handler.Arith.Bitwise.{with_low, bitwise-in_width}
use weeper_vm.Handler.Control.{next_address}
use weeper_vm.Handler.Sys.{Kernel}
use weeper_vm.Invariant.{IsWf}
use weeper_vm.Emulate.{call_handler, dispatch, emulate_step}
use weeper_vm.Emulate.Select.{select_handler}
use weeper_vm.Compiler.Bytes.{BytesAt}
use weeper_vm.Compiler.Meaning.{Source, reg, meaning, IsSource}
use weeper_vm.Compiler.Insn.{compile_insn}
use weeper_vm.Compiler.Insn.Runs.{emulate_step-compile_insn}

pub data Alu : Type 0 where
  alu_add alu_sub alu_mul alu_and alu_or alu_xor : Alu

-- The numbers of OPCODES.
unfoldable pub alu_code : Alu → ℕ
alu_code alu_add = 4
alu_code alu_sub = 5
alu_code alu_mul = 6
alu_code alu_and = 14
alu_code alu_or = 15
alu_code alu_xor = 16

-- What the instruction computes of two values below `w`.
abbrev pub computes : Alu → (w a b : ℕ) → ℕ
computes alu_add w a b = (a + b) % w
computes alu_sub w a b = (a + w - b) % w
computes alu_mul w a b = a * b % w
computes alu_and w a b = bit_and a b
computes alu_or w a b = bit_or a b
computes alu_xor w a b = bit_xor a b

abbrev pub handler : Alu → Machine → Operand → Operand → Run Machine
handler alu_add = handle_add
handler alu_sub = handle_sub
handler alu_mul = handle_mul
handler alu_and = handle_and
handler alu_or = handle_or
handler alu_xor = handle_xor

pub alu_code-lt : (i : Alu) → alu_code i < 32
unfolding alu_code
alu_code-lt alu_add = omega arith
alu_code-lt alu_sub = omega arith
alu_code-lt alu_mul = omega arith
alu_code-lt alu_and = omega arith
alu_code-lt alu_or = omega arith
alu_code-lt alu_xor = omega arith

pub dispatch-alu :
    (k : Kernel) (m m' : Machine) (vip : ℕ) (i : Alu) (op1 op2 : Operand)
    → handler i m op1 op2 ≡ ok m'
    → dispatch k m vip (alu_code i) op1 op2
      ≡ (next_address m' vip op1 op2 >>= λ after. ok (after, m'))
unfolding dispatch call_handler select_handler alu_code
dispatch-alu k m m' vip alu_add op1 op2 e = rw e refl
dispatch-alu k m m' vip alu_sub op1 op2 e = rw e refl
dispatch-alu k m m' vip alu_mul op1 op2 e = rw e refl
dispatch-alu k m m' vip alu_and op1 op2 e = rw e refl
dispatch-alu k m m' vip alu_or op1 op2 e = rw e refl
dispatch-alu k m m' vip alu_xor op1 op2 e = rw e refl

pub handler-computes :
    (m : Machine) (op1 op2 : Operand) (d0 x : ℕ) (i : Alu)
    → IsWf m
    → op1.t ≡ op_reg
    → IsSize op1.v
    → operand_byte m op1 0 ≡ ok d0
    → ((trash : ℕ) → get_operand_data m trash op2 ≡ ok x)
    → (let w = span op1.v in
        handler i m op1 op2
        ≡ ok (with_low m op1.v (d0 % 16) (computes i w (m.vregs (d0 % 16) % w) (x % w))))
handler-computes m op1 op2 d0 x i wf is_reg size byte reads =
    let (add, sub, mul) =
      alu-in_width m op1 op2 d0 x x x wf is_reg size byte (reads 0x9e) (reads 0x0f) (reads 0x2f) in
    let (conj, disj, excl, _) =
      bitwise-in_width m op1 op2 d0 x x x x wf is_reg size byte (reads 0x3d) (reads 0x38)
        (reads 0x18) (reads 0x1d) in
    let w = span op1.v in
    let low = m.vregs (d0 % 16) % w in
    elim i
      as (λ j. handler j m op1 op2 ≡ ok (with_low m op1.v (d0 % 16) (computes j w low (x % w)))) [
        | alu_add ↦ add
        | alu_sub ↦ sub
        | alu_mul ↦ mul
        | alu_and ↦ conj
        | alu_or ↦ disj
        | alu_xor ↦ excl
      ]

-- The next address is in the code, which stays.
pub next_address-low :
    (m : Machine) (v r y vip : ℕ) (op1 op2 : Operand)
    → next_address (with_low m v r y) vip op1 op2 ≡ next_address m vip op1 op2
unfolding next_address vcode_at
next_address-low m v r y vip op1 op2 = refl

-- A compiled ADD, SUB, MUL, AND, OR or XOR to a register does it, and goes on. From a well-formed
-- state, with the bytes of the instruction in the code at `vip` and a second operand that means the
-- value `x`, one round of `emulate` returns: the low part of the register, of the width of its
-- size, is the result of it and of `x` in that width, nothing else has changed, and execution goes
-- on at the address that the compiler put behind the instruction.
pub emulate_step-alu :
    (k : Kernel) (m : Machine) (vip l o ft v r x : ℕ) (i : Alu) (s : Source) (bytes : List ℕ)
    → IsWf m
    → IsSource (reg v r)
    → IsSource s
    → l < 32
    → o < 4
    → ft < 2 ^ 24
    → compile_insn l o (alu_code i) ft (some (reg v r)) (some s) ≡ some bytes
    → vip + length bytes < 2 ^ 31
    → BytesAt m vip bytes
    → meaning m s ≡ ok x
    → (let w = span v in
        emulate_step k m vip ≡ ok (ft, with_low m v r (computes i w (m.vregs r % w) (x % w))))
emulate_step-alu k m vip l o ft v r x i s bytes wf hr hs hl ho hf e hv h means =
    let (op1, op2, (step, _, (_, reads), next, (is_reg, size, byte))) =
      emulate_step-compile_insn k m vip l o (alu_code i) ft (some (reg v r)) (some s) bytes wf
        (hr, hs) hl ho (alu_code-lt i) hf e hv h in
    let w = span op1.v in
    let m' = with_low m op1.v (r % 16) (computes i w (m.vregs (r % 16) % w) (x % w)) in
    let done =
      handler-computes m op1 op2 r x i wf is_reg (subst IsSize (sym size) hr.0) byte
        (λ trash. reads trash ∙ means) in
    let named : r % 16 ≡ r = omega (arith, hr.1) in
    step
    ∙ dispatch-alu k m m' vip i op1 op2 done
    ∙ ap (λ a. a >>= λ after. ok (after, m'))
        (next_address-low m op1.v (r % 16) _ vip op1 op2 ∙ next)
    ∙ ap₂
        (λ (v n : ℕ).
          ok (ft, with_low m v n (computes i (span v) (m.vregs n % span v) (x % span v))))
        size named
