-- ===== src/Handler/Control/Flags.antt =====
-- CMP, and the conditions of the instructions that follow it.
use weeper_vm.Base.{
  ℕ, ◌+◌, ◌%◌, ◌^◌, ◌≡◌, ◌≢◌, Bool, arith, ok, bit_and, bit_or, not, ◌==◌, ltb, leb, if◌then◌else◌,
}
use weeper_vm.Machine.{Machine}
use weeper_vm.Operand.{Operand, op_none, get_operand_data}
use weeper_vm.Handler.Control.{
  flag_eq, flag_lt, flag_gt, flag_err, compare_flags, handle_cmp, condition, handle_jmp,
}
use weeper_vm.Invariant.{IsFlag, IsWf}

-- The flags that a condition of the assembly language asks for: VM/lib/emulate.h, WeeperFlag.
pub data Relation : Type 0 where
  eq neq lt lte gt gte : Relation

unfoldable pub flag_of : Relation → ℕ
flag_of eq = flag_eq
flag_of neq = bit_or flag_lt flag_gt
flag_of lt = flag_lt
flag_of lte = bit_or flag_lt flag_eq
flag_of gt = flag_gt
flag_of gte = bit_or flag_gt flag_eq

-- The relation itself.
abbrev pub relates : Relation → ℕ → ℕ → Bool
relates eq x y = x == y
relates neq x y = not (x == y)
relates lt x y = ltb x y
relates lte x y = leb x y
relates gt x y = ltb y x
relates gte x y = leb y x

-- The single flag for a pair of words.
abbrev pub order_flag : ℕ → ℕ → ℕ
order_flag x y = if x == y then flag_eq else if ltb y x then flag_gt else flag_lt

err_clear : (f : ℕ) → IsFlag f → bit_and f flag_err ≡ 0
err_clear f h = ground arith

pub compare_flags-order : (f x y : ℕ) → IsFlag f → compare_flags f x y ≡ order_flag x y
unfolding compare_flags
compare_flags-order f x y h = ground (arith, err_clear f h)

order_flag-meets :
    (c : Relation) (x y : ℕ) → not (bit_and (flag_of c) (order_flag x y) == 0) ≡ relates c x y
unfolding flag_of
order_flag-meets eq x y = ground arith
order_flag-meets _ x y = ground arith

-- In a well-formed state CMP changes nothing but the flags, and sets the one of EQ, GT and LT that
-- holds of its operands as unsigned numbers; a later condition `c` on the flags is then met exactly
-- if its relation holds of them.
pub handle_cmp-relates :
    (m : Machine) (op1 op2 : Operand) (x y : ℕ)
    → IsWf m
    → get_operand_data m 0x10 op1 ≡ ok x
    → get_operand_data m 0x20 op2 ≡ ok y
    → (handle_cmp m op1 op2 ≡ ok (record m { vflag = order_flag x y }))
      × ((c : Relation) → not (bit_and (flag_of c) (order_flag x y) == 0) ≡ relates c x y)
unfolding handle_cmp
handle_cmp-relates m op1 op2 x y wf ex ey =
    (rw (ex, ey, compare_flags-order m.vflag x y wf.flag), λ c. order_flag-meets c x y)

pub handle_jmp-condition :
    (m : Machine) (op1 op2 : Operand) (dst c : ℕ)
    → op2.t ≢ op_none
    → get_operand_data m 0xb3 op1 ≡ ok dst
    → get_operand_data m 0x00 op2 ≡ ok c
    → handle_jmp m op1 op2 ≡ ok (if not (bit_and c m.vflag == 0) then (dst + 1) % 2 ^ 32 else 0)
unfolding handle_jmp condition
handle_jmp-condition m op1 op2 dst c ne ed ec = ground arith
