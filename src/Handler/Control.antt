-- ===== src/Handler/Control.antt =====
-- CMP, JMP, CALL, RET and EXIT, and where execution goes on.
pub mod Flags
pub mod Calls
use weeper_vm.Base.{
  ℕ, ◌+◌, ◌-◌, ◌^◌, bit_and, bit_or, bit_xor, Bool, true, false, Run, ok, exited, undefined, ◌>>=◌,
  u32, ◌<<<◌, ◌>>>◌, ltb, leb, not, ◌==◌, if◌then◌else◌,
}
use weeper_vm.Stack.{minus_one, stack_push, stack_pop}
use weeper_vm.Machine.{Machine, vmem_stack_lo, vmem_stack_hi, err_stack, vcode_at, vmem_set}
use weeper_vm.Operand.{Operand, op_none, get_operand_data}
use weeper_vm.Handler.Move.{legacy_top}

-- WeeperFlag
abbrev pub flag_eq : ℕ
flag_eq = 0b0001

abbrev pub flag_lt : ℕ
flag_lt = 0b0010

abbrev pub flag_gt : ℕ
flag_gt = 0b0100

abbrev pub flag_err : ℕ
flag_err = 0b1000

-- A comparison as the `int` that it is in C.
abbrev pub to_int : Bool → ℕ
to_int true = 1
to_int false = 0

-- The new flags. `|` binds tighter than `?:`, so the first condition is all that stands before the
-- first `?`, and the later ones stand in the branches of `:`.
unfoldable pub compare_flags : ℕ → ℕ → ℕ → ℕ
compare_flags vflag x y =
    if not (bit_or (bit_and vflag flag_err) (to_int (x == y)) == 0)
    then flag_eq
    else if not (bit_or 0 (to_int (ltb y x)) == 0)
    then flag_gt
    else if not (bit_or 0 (to_int (ltb x y)) == 0)
    then flag_lt
    else 0

unfoldable pub handle_cmp : Machine → Operand → Operand → Run Machine
handle_cmp m op1 op2 = do
  x ← get_operand_data m 0x10 op1
  y ← get_operand_data m 0x20 op2
  ok (record m { vflag = compare_flags m.vflag x y })

-- Whether a conditional instruction goes ahead: there is no condition, or it meets the flags.
unfoldable pub condition : Machine → ℕ → Operand → Run Bool
condition m trash op =
    if op.t == op_none
    then ok true
    else (do c ← get_operand_data m trash op; ok (not (bit_and c m.vflag == 0)))

-- `jmpDst`: 0, or one more than the destination.
unfoldable pub handle_jmp : Machine → Operand → Operand → Run ℕ
handle_jmp m op1 op2 = do
  dst ← get_operand_data m 0xb3 op1
  taken ← condition m 0x00 op2
  ok (if taken then u32 (dst + 1) else 0)

abbrev pub operand_length : Operand → ℕ
operand_length op = if op.t == op_none then 0 else op.l

-- The three bytes behind the operands, which say where the next instruction is. The index is an
-- `int`, so a sum from 2 ^ 31 on is negative.
unfoldable pub next_address : Machine → ℕ → Operand → Operand → Run ℕ
next_address m vip op1 op2 =
    let skip = u32 (vip + operand_length op1 + operand_length op2 + 3) in
    if ltb (skip + 2) (2 ^ 31)
    then (do
      b0 ← vcode_at m skip
      b1 ← vcode_at m (skip + 1)
      b2 ← vcode_at m (skip + 2)
      ok (bit_xor (bit_or (bit_or b0 (b1 <<< 8)) (b2 <<< 16)) 0xdc2606))
    else undefined

-- The return address in the region of the previous call stack.
unfoldable pub legacy_push : Machine → ℕ → Run Machine
legacy_push m returnto = do
  offs ← legacy_top m
  if leb (vmem_stack_hi - 2) offs then exited err_stack else do
    m1 ← vmem_set m offs (bit_and returnto 0xff0000 >>> 16)
    m2 ← vmem_set m1 (offs + 1) (bit_and returnto 0xff00 >>> 8)
    vmem_set m2 (offs + 2) (bit_and returnto 0xff)

-- The status of `stack_push` is not looked at.
unfoldable pub handle_call : Machine → ℕ → Operand → Operand → Run (ℕ × Machine)
handle_call m vip op1 op2 = do
  dst ← get_operand_data m 0x56 op1
  taken ← condition m 0x70 op2
  if not taken then ok (0, m) else do
    returnto ← next_address m vip op1 op2
    m1 ← legacy_push m returnto
    (_, s) ← stack_push m1.call_stack returnto
    ok (u32 (dst + 1), record m1 { call_stack = s })

-- `offs` is where the scan of the region ended, less 3.
unfoldable pub legacy_clear : Machine → ℕ → Run Machine
legacy_clear m offs =
    if leb vmem_stack_lo offs
    then (do m1 ← vmem_set m offs 0; m2 ← vmem_set m1 (offs + 1) 0; vmem_set m2 (offs + 2) 0)
    else ok m

unfoldable pub handle_ret : Machine → Operand → Operand → Run (ℕ × Machine)
handle_ret m op1 op2 = do
  offs ← legacy_top m
  taken ← condition m 0x66 op1
  if not taken then ok (0, m) else do
    (x, s) ← stack_pop m.call_stack
    let returnto = if x == minus_one then 0xffffff else x
    m1 ← legacy_clear (record m { call_stack = s }) (offs - 3)
    ok (u32 (returnto + 1), m1)

unfoldable pub handle_exit : Machine → Operand → Operand → Run Machine
handle_exit m op1 op2 = do
  code ← if op1.t == op_none then ok 0 else get_operand_data m 0x8d op1
  exited code
