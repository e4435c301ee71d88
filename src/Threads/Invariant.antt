-- ===== src/Threads/Invariant.antt =====
-- The invariant of the machine over all interleavings.
use weeper_vm.Base.{
  ℕ, List, [], ◌∷◌, ◌++◌, map, ◌≡◌, refl, ◌∙◌, inl, arith, All, Ensures, returns, bind, ensured,
}
use weeper_vm.Stack.{Stack}
use weeper_vm.Stack.Init.{stack_init-Holds}
use weeper_vm.Machine.{Bytes}
use weeper_vm.Handler.Sys.{Kernel}
use weeper_vm.Invariant.{IsByte, IsWf}
use weeper_vm.Invariant.Step.{KeepsBytes, emulate_step-IsWf}
use weeper_vm.Threads.{
  Place, stopped, Context, Process, machine_of, spawned, Round, run_round, Step, round, exit,
  initial, Reaches, now, next,
}

-- Every thread is in a well-formed state.
abbrev pub AllWf : List ℕ → Bytes → List Context → Type 0
AllWf vcode vmem = All (λ c. IsWf (machine_of vcode vmem c))

abbrev IsBytes : Bytes → Type 0
IsBytes vmem = (a : ℕ) → IsByte (vmem a)

spawned-IsWf :
    (blank : Stack) (vcode : List ℕ) (vmem : Bytes) (vip : ℕ)
    → All IsByte vcode
    → IsBytes vmem
    → IsWf (machine_of vcode vmem (spawned blank vip))
spawned-IsWf blank vcode vmem vip hc hm = record {
  code_bytes = hc;
  mem_bytes = hm;
  reg_words = λ r. omega arith;
  flag = inl refl;
  calls = ([], stack_init-Holds blank, tt);
}

-- Other bytes in memory, and another place.
with_bytes :
    {vcode : List ℕ} {vmem : Bytes} (c : Context) (vmem' : Bytes) (place : Place)
    → IsBytes vmem'
    → IsWf (machine_of vcode vmem c)
    → IsWf (machine_of vcode vmem' (record c { place = place }))
with_bytes c vmem' place hm wf = record {
  code_bytes = wf.code_bytes;
  mem_bytes = hm;
  reg_words = wf.reg_words;
  flag = wf.flag;
  calls = wf.calls;
}

AllWf-memory :
    (vcode : List ℕ) (vmem vmem' : Bytes) (cs : List Context)
    → IsBytes vmem'
    → AllWf vcode vmem cs
    → AllWf vcode vmem' cs
AllWf-memory vcode vmem vmem' [] hm h = tt
AllWf-memory vcode vmem vmem' (c ∷ cs) hm h =
    (with_bytes c vmem' c.place hm h.0, AllWf-memory vcode vmem vmem' cs hm h.1)

AllWf-spawned :
    (blank : Stack) (vcode : List ℕ) (vmem : Bytes) (starts : List ℕ)
    → All IsByte vcode
    → IsBytes vmem
    → AllWf vcode vmem (map (spawned blank) starts)
AllWf-spawned blank vcode vmem [] hc hm = tt
AllWf-spawned blank vcode vmem (vip ∷ starts) hc hm =
    (spawned-IsWf blank vcode vmem vip hc hm, AllWf-spawned blank vcode vmem starts hc hm)

module _ {A : Type 0} (P : A → Type 0) where
  All-append : (xs ys : List A) → All P xs → All P ys → All P (xs ++ ys)
  All-append [] ys hx hy = hy
  All-append (x ∷ xs) ys hx hy = (hx.0, All-append xs ys hx.1 hy)

  All-split : (xs ys : List A) → All P (xs ++ ys) → All P xs × All P ys
  All-split [] ys h = (tt, h)
  All-split (x ∷ xs) ys h = let (hx, hy) = All-split xs ys h.1 in ((h.0, hx), hy)

-- A round leaves a well-formed thread, and starts well-formed threads.
abbrev Fine : List ℕ → Round → Type 0
Fine vcode r = IsWf (machine_of vcode r.vmem r.context) × AllWf vcode r.vmem r.started

run_round-IsWf :
    (k : Kernel) (blank : Stack) (vcode : List ℕ) (vmem : Bytes) (c : Context) (vip : ℕ)
    → KeepsBytes k
    → IsWf (machine_of vcode vmem c)
    → Ensures (Fine vcode) (run_round k blank vcode vmem c vip)
unfolding run_round
run_round-IsWf k blank vcode vmem c vip kb wf = bind (emulate_step-IsWf k kb wf vip) λ r h.
    returns (
      record {
        code_bytes = wf.code_bytes;
        mem_bytes = h.mem_bytes;
        reg_words = h.reg_words;
        flag = h.flag;
        calls = h.calls;
      },
      AllWf-spawned blank vcode r.1.vmem r.1.forks wf.code_bytes h.mem_bytes,
    )

module _ (Behaves : Kernel → Type 0) (kb : (k : Kernel) → Behaves k → KeepsBytes k)
    (blank : Stack) where
  Step-IsWf :
      {p q : Process}
      → AllWf p.vcode p.vmem p.threads
      → Step Behaves blank p q
      → AllWf q.vcode q.vmem q.threads
  Step-IsWf h (round {vcode} {vmem} before c after vip r k b _ at e) =
      let (hb, hc) = All-split (λ d. IsWf (machine_of vcode vmem d)) before (c ∷ after) h in
      let (wf, started) = ensured (run_round-IsWf k blank vcode vmem c vip (kb k b) hc.0) e in
      let P = λ (d : Context). IsWf (machine_of vcode r.vmem d) in
      All-append P before _ (AllWf-memory vcode vmem r.vmem before wf.mem_bytes hb)
        (wf, All-append P after _ (AllWf-memory vcode vmem r.vmem after wf.mem_bytes hc.1) started)
  Step-IsWf h (exit {vcode} {vmem} before c after vip status k b _ at e) =
      let P = λ (d : Context). IsWf (machine_of vcode vmem d) in
      let (hb, hc) = All-split P before (c ∷ after) h in
      All-append P before _ hb (with_bytes c vmem stopped hc.0.mem_bytes hc.0, hc.1)

-- The code stays.
Step-vcode :
    (Behaves : Kernel → Type 0) (blank : Stack) {p q : Process}
    → Step Behaves blank p q
    → q.vcode ≡ p.vcode
Step-vcode Behaves blank (round before c after vip r k b _ at e) = refl
Step-vcode Behaves blank (exit before c after vip status k b _ at e) = refl

-- Whatever the interleaving of the threads, and whatever the system answers in each round as long as
-- it keeps bytes in memory: from the start with any code of bytes, every state that is reached has
-- that code, and every thread in it, started by whatever FORK, is in a well-formed state: its
-- registers are words, its flags none or one of EQ, LT and GT, and its own call stack sound with
-- return addresses of 24 bits. A FORK whose child's stack is not the child's alone has no step.
pub Reaches-IsWf :
    (Behaves : Kernel → Type 0) (blank : Stack) (vcode : List ℕ) (p : Process)
    → ((k : Kernel) → Behaves k → KeepsBytes k)
    → All IsByte vcode
    → Reaches Behaves blank (initial blank vcode) p
    → (p.vcode ≡ vcode) × AllWf p.vcode p.vmem p.threads
Reaches-IsWf Behaves blank vcode p kb hc now =
    (refl, (spawned-IsWf blank vcode (λ a. 0) 0 hc (λ a. omega arith), tt))
Reaches-IsWf Behaves blank vcode p kb hc (next {q} reached s) =
    let (same, h) = Reaches-IsWf Behaves blank vcode q kb hc reached in
    (Step-vcode Behaves blank s ∙ same, Step-IsWf Behaves kb blank h s)
