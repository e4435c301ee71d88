-- ===== src/Emulate/Calls.antt =====
-- Where `dispatch` goes on after CALL and RET.
use weeper_vm.Base.{
  ℕ, ◌+◌, ◌-◌, ◌%◌, ◌^◌, ◌<◌, ◌≡◌, sym, subst, arith, true, List, [], ◌∷◌, All, ◌∙◌, Run, ok, ◌>>=◌,
  Returns, gives, then_gives, ensured, Ensures-of_Returns, ◌==◌, if◌then◌else◌, length,
}
use weeper_vm.Stack.{stack_capacity, minus_one}
use weeper_vm.Stack.Bounded
use weeper_vm.Stack.Chain.{Holds}
use weeper_vm.Machine.{Machine, vmem_stack_hi}
use weeper_vm.Operand.{Operand, get_operand_data}
use weeper_vm.Handler.Move.{legacy_top}
use weeper_vm.Handler.Control.{condition, next_address}
use weeper_vm.Handler.Control.Calls.{OnlyCalls, handle_call-lem, handle_ret-lem}
use weeper_vm.Handler.Sys.{Kernel}
use weeper_vm.Invariant.{IsWf}
use weeper_vm.Invariant.Control.{next_address-lt}
use weeper_vm.Emulate.{call_handler, dispatch}
use weeper_vm.Emulate.Select.{select_handler}

-- A handler that returns one more than where it goes.
jumped : (n to : ℕ) (x y : Run (ℕ × Machine)) → n ≡ to + 1 → (if n == 0 then x else y) ≡ y
jumped n to x y e = ground arith

-- The first of a list, if there is one.
abbrev pub head_or : ℕ → List ℕ → ℕ
head_or d [] = d
head_or d (x ∷ xs) = x

return_address :
    (xs : List ℕ)
    → All (λ x. x < 2 ^ 24) xs
    → ((if (Bounded.pop xs).0 == minus_one then 0xffffff else (Bounded.pop xs).0) + 1) % 2 ^ 32
      ≡ head_or 0xffffff xs + 1
return_address [] h = omega arith
return_address (x ∷ xs) h = ground arith

-- CALL with its condition met, to a destination below 2 ^ 32 - 1 and with room in the region of the
-- previous call stack: execution goes on at the destination, the address behind the CALL is pushed
-- (or dropped, if 128 are held), and nothing else changes outside that region.
pub dispatch-call :
    (k : Kernel) (m : Machine) (vip : ℕ) (op1 op2 : Operand) (xs : List ℕ) (dst after o : ℕ)
    → Holds m.call_stack xs
    → dst < 2 ^ 32 - 1
    → get_operand_data m 0x56 op1 ≡ ok dst
    → condition m 0x70 op2 ≡ ok true
    → next_address m vip op1 op2 ≡ ok after
    → legacy_top m ≡ ok o
    → o < vmem_stack_hi - 2
    → Returns
        (λ (to, m'). (to ≡ dst) × Holds m'.call_stack (Bounded.push after xs).1 × OnlyCalls m m')
        (dispatch k m vip 11 op1 op2)
unfolding dispatch call_handler select_handler
dispatch-call k m vip op1 op2 xs dst after o held small ed ec ea eo room =
    then_gives (handle_call-lem m vip op1 op2 xs dst after o held ed ec ea eo room)
      λ a (e, h, only).
        rw
          (jumped a.0 dst (next_address a.1 vip op1 op2 >>= λ b. ok (b, a.1)) (ok (a.0 - 1, a.1))
            (omega arith))
          (gives (omega arith, h, only))

-- RET with its condition met, where the call stack holds addresses of 24 bits, always returns:
-- execution goes on at the address on top of the call stack, which is popped, or at 0xFFFFFF, which
-- ends `emulate`, if the call stack is empty; nothing else changes outside the region of the
-- previous call stack.
pub dispatch-ret :
    (k : Kernel) (m : Machine) (vip : ℕ) (op1 op2 : Operand) (xs : List ℕ)
    → Holds m.call_stack xs
    → All (λ x. x < 2 ^ 24) xs
    → condition m 0x66 op1 ≡ ok true
    → Returns
        (λ (to, m').
          (to ≡ head_or 0xffffff xs) × Holds m'.call_stack (Bounded.pop xs).1 × OnlyCalls m m')
        (dispatch k m vip 12 op1 op2)
unfolding dispatch call_handler select_handler
dispatch-ret k m vip op1 op2 xs held small ec =
    then_gives (handle_ret-lem m op1 op2 xs held ec) λ a (e, h, only).
      let to = head_or 0xffffff xs in
      let n : a.0 ≡ to + 1 = e ∙ return_address xs small in
      rw (jumped a.0 to (next_address a.1 vip op1 op2 >>= λ b. ok (b, a.1)) (ok (a.0 - 1, a.1)) n)
        (gives (omega arith, h, only))

push-room : (x : ℕ) (xs : List ℕ) → length xs < stack_capacity → Bounded.push x xs ≡ (0, x ∷ xs)
push-room x xs h = ground arith

-- What CALL leaves, a RET undoes. From a well-formed state whose call stack holds at most 127
-- addresses of 24 bits, with room in the region of the previous call stack, let a CALL with its
-- condition met go on in `m1`, and let a RET with its condition met be dispatched in `m2` with the
-- call stack of `m1`. Then the CALL went to its destination, and the RET goes to the address behind
-- the CALL, with the call stack as it was before it and nothing else changed outside that region.
pub dispatch-ret-call :
    (k : Kernel) (m : Machine) (vip vip' : ℕ) (op1 op2 op1' op2' : Operand) (xs : List ℕ)
    (dst after o to : ℕ) (m1 m2 : Machine)
    → IsWf m
    → Holds m.call_stack xs
    → All (λ x. x < 2 ^ 24) xs
    → length xs < stack_capacity
    → dst < 2 ^ 32 - 1
    → get_operand_data m 0x56 op1 ≡ ok dst
    → condition m 0x70 op2 ≡ ok true
    → next_address m vip op1 op2 ≡ ok after
    → legacy_top m ≡ ok o
    → o < vmem_stack_hi - 2
    → dispatch k m vip 11 op1 op2 ≡ ok (to, m1)
    → m2.call_stack ≡ m1.call_stack
    → condition m2 0x66 op1' ≡ ok true
    → (to ≡ dst)
      × Returns
          (λ (back, m3). (back ≡ after) × Holds m3.call_stack xs × OnlyCalls m2 m3)
          (dispatch k m2 vip' 12 op1' op2')
dispatch-ret-call k m vip vip' op1 op2 op1' op2' xs dst after o to m1 m2 wf held small room24 hd ed
      ec ea eo room call same ec' =
    let (goes, h, _) =
      ensured
        (Ensures-of_Returns (dispatch-call k m vip op1 op2 xs dst after o held hd ed ec ea eo room))
        call in
    let h2 : Holds m2.call_stack (after ∷ xs) =
      subst (λ s. Holds s (after ∷ xs)) (sym same)
        (subst (λ p. Holds m1.call_stack p.1) (push-room after xs room24) h) in
    (
      goes,
      dispatch-ret k m2 vip' op1' op2' (after ∷ xs) h2
          (ensured (next_address-lt wf vip op1 op2) ea, small) ec',
    )
