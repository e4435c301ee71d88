-- ===== src/Compiler/Program/Step.antt =====
-- What one compiled line of a program does.
use weeper_vm.Base.{
  ℕ, ◌+◌, ◌%◌, ◌^◌, ◌<◌, ◌≤◌, ◌≡◌, refl, sym, ◌∙◌, ap, ap₂, subst, arith, List, some, Run, ok,
  exited, undefined, ◌>>=◌, length, returns, ensured, ok-injective, bind_ok, true, if◌then◌else◌,
  ◌==◌,
}
use weeper_vm.Machine.{Machine}
use weeper_vm.Operand.{Operand, op_reg, operand_byte, get_operand_data}
use weeper_vm.Handler.Arith.{
  alu, handle_add, handle_sub, handle_mul, handle_and, handle_or, handle_xor,
}
use weeper_vm.Handler.Arith.Reg.{span, IsSize}
use weeper_vm.Handler.Arith.Bitwise.{with_low}
use weeper_vm.Handler.Move.{handle_mov}
use weeper_vm.Handler.Move.Mov.{handle_mov-reg}
use weeper_vm.Handler.Control.{next_address}
use weeper_vm.Handler.Sys.{Kernel}
use weeper_vm.Invariant.{IsWf}
use weeper_vm.Invariant.Step.{emulate_step-IsWf}
use weeper_vm.Emulate.{call_handler, dispatch, emulate_step}
use weeper_vm.Emulate.Select.{select_handler}
use weeper_vm.Compiler.Bytes.{BytesAt}
use weeper_vm.Compiler.Meaning.{Source, reg, meaning}
use weeper_vm.Compiler.Insn.{compile_insn}
use weeper_vm.Compiler.Insn.Alu.{
  alu_code, alu_add, alu_sub, alu_mul, alu_and, alu_or, alu_xor, alu_code-lt, handler,
  handler-computes, next_address-low,
}
use weeper_vm.Compiler.Insn.Runs.{emulate_step-compile_insn}
use weeper_vm.Compiler.Program.{
  Action, move, compute, action_code, Line, result, run_line, source_size, Fits, IsLine,
}
use weeper_vm.Compiler.Program.Width.{meaning-lt, span_mono}

-- The handler of a line, and what it reads.
abbrev act_handler : Action → Machine → Operand → Operand → Run Machine
act_handler move = handle_mov
act_handler (compute i) = handler i

action_code-lt : (i : Action) → action_code i < 32
action_code-lt move = omega arith
action_code-lt (compute i) = alu_code-lt i

no_jumps :
    {A B : Type 0} (r : Run A) (f g : ℕ × A → Run B)
    → ((r >>= λ a. ok (0, a)) >>= λ t. if t.0 == 0 then f t else g t) ≡ (r >>= λ a. f (0, a))
no_jumps (ok a) f g = refl
no_jumps (exited c) f g = refl
no_jumps undefined f g = refl

-- The opcode of a line dispatches its handler, and goes on.
dispatch-act :
    (k : Kernel) (m : Machine) (vip : ℕ) (i : Action) (op1 op2 : Operand)
    → dispatch k m vip (action_code i) op1 op2
      ≡ (act_handler i m op1 op2 >>= λ m'. next_address m' vip op1 op2 >>= λ after. ok (after, m'))
unfolding dispatch call_handler select_handler alu_code
dispatch-act k m vip move op1 op2 = no_jumps (handle_mov m op1 op2) _ _
dispatch-act k m vip (compute alu_add) op1 op2 = no_jumps (handle_add m op1 op2) _ _
dispatch-act k m vip (compute alu_sub) op1 op2 = no_jumps (handle_sub m op1 op2) _ _
dispatch-act k m vip (compute alu_mul) op1 op2 = no_jumps (handle_mul m op1 op2) _ _
dispatch-act k m vip (compute alu_and) op1 op2 = no_jumps (handle_and m op1 op2) _ _
dispatch-act k m vip (compute alu_or) op1 op2 = no_jumps (handle_or m op1 op2) _ _
dispatch-act k m vip (compute alu_xor) op1 op2 = no_jumps (handle_xor m op1 op2) _ _

-- A handler reads its source first, and stops where that does not return.
abbrev ReadsFirst : (m : Machine) (op1 op2 : Operand) (i : Action) → Type 0
ReadsFirst m op1 op2 i =
    (trash : ℕ) × (f : ℕ → Run Machine) × (act_handler i m op1 op2
      ≡ (get_operand_data m trash op2 >>= f))

reads_source : (m : Machine) (op1 op2 : Operand) (i : Action) → ReadsFirst m op1 op2 i
unfolding handle_mov alu handle_add handle_sub handle_mul handle_and handle_or handle_xor
reads_source m op1 op2 move = (0x37, _, refl)
reads_source m op1 op2 (compute alu_add) = (0x9e, _, refl)
reads_source m op1 op2 (compute alu_sub) = (0x0f, _, refl)
reads_source m op1 op2 (compute alu_mul) = (0x2f, _, refl)
reads_source m op1 op2 (compute alu_and) = (0x3d, _, refl)
reads_source m op1 op2 (compute alu_or) = (0x38, _, refl)
reads_source m op1 op2 (compute alu_xor) = (0x18, _, refl)

-- What a handler of a line leaves.
act_handler-result :
    (m : Machine) (op1 op2 : Operand) (d0 x : ℕ) (i : Action) (s : Source)
    → IsWf m
    → op1.t ≡ op_reg
    → IsSize op1.v
    → operand_byte m op1 0 ≡ ok d0
    → ((trash : ℕ) → get_operand_data m trash op2 ≡ ok x)
    → meaning m s ≡ ok x
    → Fits i s op1.v
    → (let w = span op1.v in
        act_handler i m op1 op2
        ≡ ok (with_low m op1.v (d0 % 16) (result i w (m.vregs (d0 % 16) % w) x)))
act_handler-result m op1 op2 d0 x move s wf is_reg size byte reads means fits =
    let small : x < span (source_size s) = ensured (meaning-lt m s wf) means in
    let wide : span (source_size s) ≤ span op1.v = span_mono (source_size s) op1.v size.1 fits in
    handle_mov-reg m op1 op2 d0 x wf is_reg size byte (reads 0x37) (omega (arith, small, wide))
act_handler-result m op1 op2 d0 x (compute i) s wf is_reg size byte reads means fits =
    handler-computes m op1 op2 d0 x i wf is_reg size byte reads

-- The same, whether the source returns or not.
act_handler-eq :
    (m : Machine) (op1 op2 : Operand) (d0 : ℕ) (i : Action) (s : Source) (x : Run ℕ)
    → IsWf m
    → op1.t ≡ op_reg
    → IsSize op1.v
    → operand_byte m op1 0 ≡ ok d0
    → ((trash : ℕ) → get_operand_data m trash op2 ≡ meaning m s)
    → meaning m s ≡ x
    → Fits i s op1.v
    → (let w = span op1.v in
        act_handler i m op1 op2
        ≡ (x >>= λ x. ok (with_low m op1.v (d0 % 16) (result i w (m.vregs (d0 % 16) % w) x))))
act_handler-eq m op1 op2 d0 i s (ok x) wf is_reg size byte reads means fits =
    act_handler-result m op1 op2 d0 x i s wf is_reg size byte (λ trash. reads trash ∙ means) means
      fits
act_handler-eq m op1 op2 d0 i s (exited c) wf is_reg size byte reads means fits =
    let (trash, f, first) = reads_source m op1 op2 i in
    first ∙ ap (λ y. y >>= f) (reads trash ∙ means)
act_handler-eq m op1 op2 d0 i s undefined wf is_reg size byte reads means fits =
    let (trash, f, first) = reads_source m op1 op2 i in
    first ∙ ap (λ y. y >>= f) (reads trash ∙ means)

abbrev pub arrive : ℕ → Machine → Run (ℕ × Machine)
arrive ft m = ok (ft, m)

abbrev proceed : ℕ → Operand → Operand → Machine → Run (ℕ × Machine)
proceed vip op1 op2 m = next_address m vip op1 op2 >>= λ after. arrive after m

-- The state that a line leaves, with the address behind it.
after_line :
    (m : Machine) (vip ft v r : ℕ) (op1 op2 : Operand) (x : Run ℕ) (y : ℕ → ℕ)
    → next_address m vip op1 op2 ≡ ok ft
    → ((x >>= λ x. ok (with_low m v r (y x))) >>= proceed vip op1 op2)
      ≡ ((x >>= λ x. ok (with_low m v r (y x))) >>= arrive ft)
after_line m vip ft v r op1 op2 (ok x) y next =
    ap (λ a. a >>= λ after. arrive after (with_low m v r (y x)))
      (next_address-low m v r (y x) vip op1 op2 ∙ next)
after_line m vip ft v r op1 op2 (exited c) y next = refl
after_line m vip ft v r op1 op2 undefined y next = refl

-- A kernel whose calls do nothing.
abbrev quiet : Kernel
quiet = record {
  vmem_base = 0;
  call = λ r mem. ok (0, mem);
  map_stack = λ mem. some 0x70000000;
  has_thread = λ ca mem. true;
  is_private = λ stack size. true;
}

-- One round on a compiled line, from a well-formed state, does what the line does, and goes on at
-- the address behind the instruction.
pub emulate_step-line :
    (k : Kernel) (m : Machine) (vip l o ft : ℕ) (c : Line) (bytes : List ℕ)
    → IsWf m
    → IsLine c
    → l < 32
    → o < 4
    → ft < 2 ^ 24
    → compile_insn l o (action_code c.act) ft (some (reg c.v c.r)) (some c.s) ≡ some bytes
    → vip + length bytes < 2 ^ 31
    → BytesAt m vip bytes
    → emulate_step k m vip ≡ (run_line m c >>= λ m'. ok (ft, m'))
emulate_step-line k m vip l o ft c bytes wf (hr, hs, fits) hl ho hf e hv h =
    let (op1, op2, (step, _, (_, reads), next, (is_reg, size, byte))) =
      emulate_step-compile_insn k m vip l o (action_code c.act) ft (some (reg c.v c.r)) (some c.s)
        bytes wf (hr, hs) hl ho (action_code-lt c.act) hf e hv h in
    let named : c.r % 16 ≡ c.r = omega (arith, hr.1) in
    let done =
      act_handler-eq m op1 op2 c.r c.act c.s (meaning m c.s) wf is_reg
        (subst IsSize (sym size) hr.0) byte reads refl (subst (Fits c.act c.s) (sym size) fits) in
    step
    ∙ dispatch-act k m vip c.act op1 op2
    ∙ ap (λ (q : Run Machine). q >>= proceed vip op1 op2) done
    ∙ after_line m vip ft op1.v (c.r % 16) op1 op2 (meaning m c.s) _ next
    ∙ ap₂
        (λ (v n : ℕ).
          (meaning m c.s >>= λ x.
          ok (with_low m v n (result c.act (span v) (m.vregs n % span v) x)))
          >>= arrive ft)
        size named

-- The registers and memory that a line leaves are well-formed, and the code stays.
pub run_line-IsWf :
    (m m' : Machine) (vip ft : ℕ) (c : Line)
    → IsWf m
    → ((k : Kernel) → emulate_step k m vip ≡ (run_line m c >>= λ m'. ok (ft, m')))
    → run_line m c ≡ ok m'
    → IsWf m'
run_line-IsWf m m' vip ft c wf step e =
    ensured (emulate_step-IsWf quiet (λ r mem h. returns h) wf vip)
      (step quiet ∙ ap (λ r. r >>= arrive ft) e)

pub run_line-code : (m m' : Machine) (c : Line) → run_line m c ≡ ok m' → m'.vcode ≡ m.vcode
run_line-code m m' c e =
    let (x, _, same) = bind_ok (meaning m c.s) _ e in sym (ap (λ n. n.vcode) (ok-injective same))
