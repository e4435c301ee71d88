-- ===== src/Handler/Control/Calls.antt =====
-- CALL and RET over the call stack, and what they leave in the region of the previous one.
use weeper_vm.Base.{
  ℕ, ◌+◌, ◌-◌, ◌%◌, ◌^◌, ◌≤◌, ◌<◌, ◌≡◌, ◌⊎◌, inl, inr, refl, sym, subst, arith, true, false, List,
  ok, ◌>>=◌, Returns, gives, then_gives, ensured, Ensures-of_Returns, bit_and, ◌>>>◌, leb, ◌==◌,
  if◌then◌else◌, Bool-cases,
}
use weeper_vm.Stack.{Stack, minus_one}
use weeper_vm.Stack.Bounded
use weeper_vm.Stack.Chain.{Holds}
use weeper_vm.Stack.Refine.{stack_push-Agrees, stack_pop-Agrees}
use weeper_vm.Machine.{Bytes, Machine, update, vmem_set, vmem_size, vmem_stack_lo, vmem_stack_hi}
use weeper_vm.Operand.{Operand, get_operand_data}
use weeper_vm.Handler.Move.{legacy_top}
use weeper_vm.Handler.Move.Scan.{IsTop, legacy_top-IsTop}
use weeper_vm.Handler.Control.{
  condition, next_address, legacy_push, legacy_clear, handle_call, handle_ret,
}

-- The registers, the flags, the code, the threads and the memory outside the region of the previous
-- call stack are the same.
pub record OnlyCalls (m m' : Machine) : Type 0 where
  pub code : m'.vcode ≡ m.vcode
  pub registers : m'.vregs ≡ m.vregs
  pub flags : m'.vflag ≡ m.vflag
  pub threads : m'.forks ≡ m.forks
  pub memory : (j : ℕ) → (j < vmem_stack_lo) ⊎ (vmem_stack_hi ≤ j) → m'.vmem j ≡ m.vmem j

leb-false : (a b : ℕ) → b < a → leb a b ≡ false
leb-false a b h = ground arith

-- Three bytes put at `a`.
abbrev three_bytes : Bytes → ℕ → ℕ → ℕ → ℕ → Bytes
three_bytes b a x y z = update (update (update b a x) (a + 1) y) (a + 2) z

vmem_set-ok :
    (m : Machine) (a x : ℕ)
    → a < vmem_size
    → vmem_set m a x ≡ ok (record m { vmem = update m.vmem a x })
unfolding vmem_set
vmem_set-ok m a x h = ground arith

three_sets :
    (m : Machine) (a x y z : ℕ)
    → a + 2 < vmem_size
    → (vmem_set m a x >>= λ m1. vmem_set m1 (a + 1) y >>= λ m2. vmem_set m2 (a + 2) z)
      ≡ ok (record m { vmem = three_bytes m.vmem a x y z })
three_sets m a x y z h =
    let m1 : Machine = record m { vmem = update m.vmem a x } in
    let m2 : Machine = record m { vmem = update (update m.vmem a x) (a + 1) y } in
    rw (
      vmem_set-ok m a x (omega arith),
      vmem_set-ok m1 (a + 1) y (omega arith),
      vmem_set-ok m2 (a + 2) z (omega arith),
    )

three_bytes-outside :
    (b : Bytes) (a x y z j : ℕ) → (j < a) ⊎ (a + 2 < j) → three_bytes b a x y z j ≡ b j
three_bytes-outside b a x y z j h = ground arith

-- Three bytes in the region.
in_region :
    (m : Machine) (a x y z : ℕ)
    → vmem_stack_lo ≤ a
    → a + 2 < vmem_stack_hi
    → OnlyCalls m (record m { vmem = three_bytes m.vmem a x y z })
in_region m a x y z lo hi = record {
  code = refl;
  registers = refl;
  flags = refl;
  threads = refl;
  memory = λ j h. three_bytes-outside m.vmem a x y z j (omega arith);
}

unchanged : (m : Machine) → OnlyCalls m m
unchanged m = record {
  code = refl;
  registers = refl;
  flags = refl;
  threads = refl;
  memory = λ j h. refl;
}

legacy_push-OnlyCalls :
    (m : Machine) (x o : ℕ)
    → legacy_top m ≡ ok o
    → vmem_stack_lo ≤ o
    → o < vmem_stack_hi - 2
    → Returns (λ m'. OnlyCalls m m' × (m'.call_stack ≡ m.call_stack)) (legacy_push m x)
unfolding legacy_push
legacy_push-OnlyCalls m x o e lo hi =
    rw
      (
        e,
        leb-false (vmem_stack_hi - 2) o hi,
        three_sets m o (bit_and x 0xff0000 >>> 16) (bit_and x 0xff00 >>> 8) (bit_and x 0xff)
            (omega arith),
      )
      (gives (in_region m o _ _ _ lo (omega arith), refl))

legacy_clear-OnlyCalls :
    (m : Machine) (a : ℕ)
    → a ≤ vmem_stack_hi - 3
    → Returns (λ m'. OnlyCalls m m' × (m'.call_stack ≡ m.call_stack)) (legacy_clear m a)
unfolding legacy_clear
legacy_clear-OnlyCalls m a h = elim (Bool-cases (leb vmem_stack_lo a)) [
  | inl e ↦
      rw (e, three_sets m a 0 0 0 (omega arith))
        (gives (in_region m a 0 0 0 (ground arith) (omega arith), refl))
  | inr e ↦ rw e (gives (unchanged m, refl))
]

-- The call stack is not among what stays.
other_stack :
    {m m1 : Machine} (s t : Stack)
    → OnlyCalls (record m { call_stack = s }) m1
    → OnlyCalls m (record m1 { call_stack = t })
other_stack s t only = record {
  code = only.code;
  registers = only.registers;
  flags = only.flags;
  threads = only.threads;
  memory = only.memory;
}

top-lo : (m : Machine) (o : ℕ) → legacy_top m ≡ ok o → vmem_stack_lo ≤ o
top-lo m o e =
    let t : IsTop m (vmem_stack_lo - 3) o = ensured (Ensures-of_Returns (legacy_top-IsTop m)) e in
    omega (arith, t.after, t.aligned)

-- CALL with its condition met, where the region of the previous call stack has room: it goes to the
-- destination with the address behind it pushed, and changes nothing else outside that region.
pub handle_call-lem :
    (m : Machine) (vip : ℕ) (op1 op2 : Operand) (xs : List ℕ) (dst after o : ℕ)
    → Holds m.call_stack xs
    → get_operand_data m 0x56 op1 ≡ ok dst
    → condition m 0x70 op2 ≡ ok true
    → next_address m vip op1 op2 ≡ ok after
    → legacy_top m ≡ ok o
    → o < vmem_stack_hi - 2
    → Returns
        (λ (j, m').
          (j ≡ (dst + 1) % 2 ^ 32) × Holds m'.call_stack (Bounded.push after xs).1 × OnlyCalls m m')
        (handle_call m vip op1 op2)
unfolding handle_call
handle_call-lem m vip op1 op2 xs dst after o held ed ec ea eo room =
    rw (ed, ec, ea)
      (then_gives (legacy_push-OnlyCalls m after o eo (top-lo m o eo) room) λ m1 (only, same).
        then_gives (stack_push-Agrees (subst (λ s. Holds s xs) (sym same) held) after)
          λ a (_, h). gives (refl, h, other_stack m.call_stack a.1 only))

-- RET with its condition met always returns: it goes to the address on top of the call stack, or to
-- 0xFFFFFF if there is none, with that address popped, and changes nothing else outside the region
-- of the previous call stack.
pub handle_ret-lem :
    (m : Machine) (op1 op2 : Operand) (xs : List ℕ)
    → Holds m.call_stack xs
    → condition m 0x66 op1 ≡ ok true
    → Returns
        (λ (j, m').
          (j
            ≡ ((if (Bounded.pop xs).0 == minus_one then 0xffffff else (Bounded.pop xs).0) + 1)
              % 2 ^ 32)
          × Holds m'.call_stack (Bounded.pop xs).1
          × OnlyCalls m m')
        (handle_ret m op1 op2)
unfolding handle_ret
handle_ret-lem m op1 op2 xs held ec = then_gives (legacy_top-IsTop m) λ o top. rw ec (
    then_gives (stack_pop-Agrees held) λ a (e, h).
      then_gives
        (legacy_clear-OnlyCalls (record m { call_stack = a.1 }) (o - 3) (omega (arith, top.inside)))
        λ m1 (only, same). gives (
          rw e,
          subst (λ s. Holds s (Bounded.pop xs).1) (sym same) h,
          other_stack a.1 m1.call_stack only,
        ))
