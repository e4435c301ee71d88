-- ===== src/Invariant/Control.antt =====
-- CMP, JMP, CALL, RET and EXIT keep the invariant, and addresses have 24 bits.
use weeper_vm.Base.{
  ℕ, ◌+◌, ◌-◌, ◌*◌, ◌^◌, ◌<◌, List, [], ◌∷◌, arith, ok, Ensures, returns, exits, stuck, bind, mono,
  anyhow, Ensures-of_Returns, All, ltb, leb, not, bit_or, bit_xor, ◌==◌, u32, ◌<<<◌, ◌>>=◌,
  if◌then◌else◌,
}
use weeper_vm.Base.Bits.{or-lt, xor-lt}
use weeper_vm.Stack.{Stack, stack_push, stack_pop}
use weeper_vm.Stack.Bounded
use weeper_vm.Stack.Refine.{stack_push-Agrees, stack_pop-Agrees}
use weeper_vm.Machine.{Machine, vmem_stack_lo, vmem_stack_hi, vmem_set}
use weeper_vm.Memory.Mask.{and-0xff, byte_1, byte_2}
use weeper_vm.Operand.{Operand, op_none, get_operand_data}
use weeper_vm.Handler.Move.{legacy_top}
use weeper_vm.Handler.Control.{
  compare_flags, handle_cmp, condition, operand_length, next_address, legacy_push, handle_call,
  legacy_clear, handle_ret, handle_exit,
}
use weeper_vm.Invariant.Defs.{IsByte, IsFlag, IsCall, IsWf, branch}
use weeper_vm.Invariant.Read.{vcode_at-IsByte}
use weeper_vm.Invariant.Write.{vmem_set-IsWf}

compare_flags-IsFlag : (f x y : ℕ) → IsFlag (compare_flags f x y)
unfolding compare_flags
compare_flags-IsFlag f x y = ground arith

address-lt :
    (b0 b1 b2 : ℕ)
    → IsByte b0
    → IsByte b1
    → IsByte b2
    → bit_xor (bit_or (bit_or b0 (b1 <<< 8)) (b2 <<< 16)) 0xdc2606 < 2 ^ 24
address-lt b0 b1 b2 h0 h1 h2 =
    xor-lt 24 (bit_or (bit_or b0 (b1 <<< 8)) (b2 <<< 16)) 0xdc2606
      (or-lt 24 (bit_or b0 (b1 <<< 8)) (b2 * 65536)
        (or-lt 24 b0 (b1 * 256) (omega arith) (omega arith)) (omega arith))
      (omega arith)

push-All :
    (x : ℕ) (xs : List ℕ)
    → x < 2 ^ 24
    → All (λ x. x < 2 ^ 24) xs
    → All (λ x. x < 2 ^ 24) (Bounded.push x xs).1
push-All x xs h hs = ground arith

pop-All : (xs : List ℕ) → All (λ x. x < 2 ^ 24) xs → All (λ x. x < 2 ^ 24) (Bounded.pop xs).1
pop-All [] hs = tt
pop-All (x ∷ xs) hs = hs.1

module _ {m : Machine} (wf : IsWf m) where
  pub next_address-lt :
      (vip : ℕ) (op1 op2 : Operand) → Ensures (λ a. a < 2 ^ 24) (next_address m vip op1 op2)
  unfolding next_address
  next_address-lt vip op1 op2 =
      let skip = u32 (vip + operand_length op1 + operand_length op2 + 3) in
      branch (ltb (skip + 2) (2 ^ 31))
        (bind (vcode_at-IsByte wf skip) λ b0 h0. bind (vcode_at-IsByte wf (skip + 1)) λ b1 h1.
          bind (vcode_at-IsByte wf (skip + 2)) λ b2 h2. returns (address-lt b0 b1 b2 h0 h1 h2))
        stuck

  push-IsCall : (x : ℕ) → x < 2 ^ 24 → Ensures (λ (_, s). IsCall s) (stack_push m.call_stack x)
  push-IsCall x h =
      let (xs, held, small) = wf.calls in
      mono (Ensures-of_Returns (stack_push-Agrees held x))
        λ a (_, held'). ((Bounded.push x xs).1, held', push-All x xs h small)

  pop-IsCall : Ensures (λ (_, s). IsCall s) (stack_pop m.call_stack)
  pop-IsCall =
      let (xs, held, small) = wf.calls in
      mono (Ensures-of_Returns (stack_pop-Agrees held))
        λ a (_, held'). ((Bounded.pop xs).1, held', pop-All xs small)

  pub cmp-IsWf : (op1 op2 : Operand) → Ensures IsWf (handle_cmp m op1 op2)
  unfolding handle_cmp
  cmp-IsWf op1 op2 = bind (anyhow (get_operand_data m 0x10 op1)) λ x _.
      bind (anyhow (get_operand_data m 0x20 op2)) λ y _. returns (record {
        code_bytes = wf.code_bytes;
        mem_bytes = wf.mem_bytes;
        reg_words = wf.reg_words;
        flag = compare_flags-IsFlag m.vflag x y;
        calls = wf.calls;
      })

  pub exit-IsWf : (op1 op2 : Operand) → Ensures IsWf (handle_exit m op1 op2)
  unfolding handle_exit
  exit-IsWf op1 op2 =
      bind (anyhow (if op1.t == op_none then ok 0 else get_operand_data m 0x8d op1)) λ code _. exits

-- A state with another call stack, and with other bytes in the region of the previous one.
with_stack : {m : Machine} → IsWf m → (s : Stack) → IsCall s → IsWf (record m { call_stack = s })
with_stack wf s h = record {
  code_bytes = wf.code_bytes;
  mem_bytes = wf.mem_bytes;
  reg_words = wf.reg_words;
  flag = wf.flag;
  calls = h;
}

three_writes :
    {m : Machine}
    → IsWf m
    → (a x y z : ℕ) → IsByte x
    → IsByte y
    → IsByte z
    → Ensures IsWf (vmem_set m a x >>= λ m1. vmem_set m1 (a + 1) y >>= λ m2. vmem_set m2 (a + 2) z)
three_writes wf a x y z hx hy hz =
    bind (vmem_set-IsWf wf a x hx)
      λ m1 wf1. bind (vmem_set-IsWf wf1 (a + 1) y hy) λ m2 wf2. vmem_set-IsWf wf2 (a + 2) z hz

legacy_push-IsWf : {m : Machine} → IsWf m → (x : ℕ) → Ensures IsWf (legacy_push m x)
unfolding legacy_push
legacy_push-IsWf {m} wf x = bind (anyhow (legacy_top m)) λ offs _.
    branch (leb (vmem_stack_hi - 2) offs) exits (
      three_writes wf offs _ _ _ (omega (arith, byte_2 x)) (omega (arith, byte_1 x))
        (omega (arith, and-0xff x)))

legacy_clear-IsWf : {m : Machine} → IsWf m → (a : ℕ) → Ensures IsWf (legacy_clear m a)
unfolding legacy_clear
legacy_clear-IsWf wf a =
    branch (leb vmem_stack_lo a) (three_writes wf a 0 0 0 (omega arith) (omega arith) (omega arith))
      (returns wf)

module _ {m : Machine} (wf : IsWf m) where
  pub call-IsWf :
      (vip : ℕ) (op1 op2 : Operand) → Ensures (λ (_, m'). IsWf m') (handle_call m vip op1 op2)
  unfolding handle_call
  call-IsWf vip op1 op2 = bind (anyhow (get_operand_data m 0x56 op1)) λ dst _.
      bind (anyhow (condition m 0x70 op2)) λ taken _. branch (not taken) (returns wf) (
        bind (next_address-lt wf vip op1 op2) λ returnto small.
          bind (legacy_push-IsWf wf returnto)
            λ m1 wf1. bind (push-IsCall wf1 returnto small) λ a h. returns (with_stack wf1 a.1 h))

  pub ret-IsWf : (op1 op2 : Operand) → Ensures (λ (_, m'). IsWf m') (handle_ret m op1 op2)
  unfolding handle_ret
  ret-IsWf op1 op2 = bind (anyhow (legacy_top m)) λ offs _.
      bind (anyhow (condition m 0x66 op1)) λ taken _. branch (not taken) (returns wf) (
        bind (pop-IsCall wf)
          λ a h. bind (legacy_clear-IsWf (with_stack wf a.1 h) (offs - 3)) λ m1 wf1. returns wf1)
