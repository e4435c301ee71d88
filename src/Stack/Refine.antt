-- ===== src/Stack/Refine.antt =====
-- The linked frames behave as the bounded list of what they hold.
use weeper_vm.Base.{
  ℕ, ◌+◌, ◌<◌, ◌≤◌, ◌≡◌, refl, true, false, List, [], ◌∷◌, arith, length, Returns, gives, ok, ap,
  subst, ◌∙◌,
}
use weeper_vm.Stack.{
  stack_capacity, minus_one, Link, StackFrame, Frames, Stack, frame_at, stack_push, stack_pop,
  stack_peek,
}
use weeper_vm.Stack.Bounded
use weeper_vm.Stack.Chain.{
  has, AllDistinct, Chain, end, step, values, Holds, Chain-set_frame, values-set_frame,
  length-values,
}

abbrev stack : Frames → Link → Link → Stack
stack fr t f = record { frames = fr; top = t; free = f }

-- `s'` holds the second part of what the list operation returns, and `n` is the first.
abbrev pub Agrees : ℕ × List ℕ → ℕ × Stack → Type 0
Agrees (n, xs) (n', s') = (n' ≡ n) × Holds s' xs

frame_at-ok : (fr : Frames) (i : ℕ) → i < stack_capacity → frame_at fr i ≡ ok (fr i)
unfolding frame_at
frame_at-ok fr i h = ground arith

Bounded-push-room :
    (x : ℕ) (xs : List ℕ) → length xs < stack_capacity → Bounded.push x xs ≡ (0, x ∷ xs)
Bounded-push-room x xs h = ground arith

Bounded-push-full :
    (x : ℕ) (xs : List ℕ) → stack_capacity ≤ length xs → Bounded.push x xs ≡ (minus_one, xs)
Bounded-push-full x xs h = ground arith

push_chains :
    (fr : Frames) (t : Link) (x : ℕ) {f : Link} {used unused : List ℕ}
    → Chain fr t used
    → Chain fr f unused
    → AllDistinct used
    → AllDistinct unused
    → ((a : ℕ) → has a used ≡ true → has a unused ≡ false)
    → length used + length unused ≡ stack_capacity
    → Returns (Agrees (Bounded.push x (values fr used))) (stack_push (stack fr t f) x)
unfolding stack_push
push_chains fr t x {used} up end du dn apart whole =
    rw (Bounded-push-full x (values fr used) (omega (arith, length-values fr used))) (
      gives (
        refl,
        record {
          used = used;
          unused = [];
          top_chain = up;
          free_chain = end;
          used_distinct = du;
          unused_distinct = dn;
          apart = apart;
          whole = whole;
          content = refl;
        },
      ))
push_chains fr t x {used} up (step {i} {l} {is} h e down) du dn apart whole =
    let i_used : has i used ≡ false = ground (arith, apart i) in
    let f : StackFrame = record { value = x; next = t } in
    rw
      (
        Bounded-push-room x (values fr used) (omega (arith, length-values fr used)),
        frame_at-ok fr i h,
      )
      (gives (
        refl,
        record {
          used = i ∷ used;
          unused = is;
          top_chain = step h (ground arith) (Chain-set_frame i f up i_used);
          free_chain = rw e (Chain-set_frame i f down dn.0);
          used_distinct = (i_used, du);
          unused_distinct = dn.1;
          apart = λ a. ground (arith, apart a);
          whole = omega arith;
          content = ground (arith, values-set_frame fr used i f);
        },
      ))

pop_chains :
    (fr : Frames) (f : Link) {t : Link} {used unused : List ℕ}
    → Chain fr t used
    → Chain fr f unused
    → AllDistinct used
    → AllDistinct unused
    → ((a : ℕ) → has a used ≡ true → has a unused ≡ false)
    → length used + length unused ≡ stack_capacity
    → Returns (Agrees (Bounded.pop (values fr used))) (stack_pop (stack fr t f))
unfolding stack_pop
pop_chains fr f {unused} end down du dn apart whole = gives (
  refl,
  record {
    used = [];
    unused = unused;
    top_chain = end;
    free_chain = down;
    used_distinct = du;
    unused_distinct = dn;
    apart = apart;
    whole = whole;
    content = refl;
  },
)
pop_chains fr f {unused} (step {i} {l} {is} h e up) down du dn apart whole =
    let i_unused : has i unused ≡ false = ground (arith, apart i) in
    let g : StackFrame = record { value = (fr i).value; next = f } in
    rw (frame_at-ok fr i h) (
      gives (
        refl,
        record {
          used = is;
          unused = i ∷ unused;
          top_chain = rw e (Chain-set_frame i g up du.0);
          free_chain = step h (ground arith) (Chain-set_frame i g down i_unused);
          used_distinct = du.1;
          unused_distinct = (i_unused, dn);
          apart = λ a. ground (arith, apart a);
          whole = omega arith;
          content = values-set_frame fr is i g du.0;
        },
      ))

peek_chains :
    (fr : Frames) (f : Link) {t : Link} {used : List ℕ}
    → Chain fr t used
    → stack_peek (stack fr t f) ≡ ok (Bounded.peek (values fr used))
unfolding stack_peek
peek_chains fr f end = refl
peek_chains fr f (step {i} h e up) = rw (frame_at-ok fr i h)

module _ {s : Stack} {xs : List ℕ} (h : Holds s xs) where
  -- On a stack that holds `xs`, `stack_push` reads and writes within the array, returns 0 and
  -- leaves a stack that holds the word above `xs`, or, if 128 words are held, returns -1 and
  -- leaves a stack that holds `xs`.
  pub stack_push-Agrees : (x : ℕ) → Returns (Agrees (Bounded.push x xs)) (stack_push s x)
  stack_push-Agrees x =
      subst (λ ys. Returns (Agrees (Bounded.push x ys)) (stack_push s x)) h.content
        (push_chains s.frames s.top x h.top_chain h.free_chain h.used_distinct h.unused_distinct
          h.apart h.whole)

  -- On a stack that holds `xs`, `stack_pop` reads and writes within the array, returns the last
  -- word pushed and leaves a stack that holds the others, or, if there is none, returns -1 and
  -- leaves a stack that holds nothing.
  pub stack_pop-Agrees : Returns (Agrees (Bounded.pop xs)) (stack_pop s)
  stack_pop-Agrees =
      subst (λ ys. Returns (Agrees (Bounded.pop ys)) (stack_pop s)) h.content
        (pop_chains s.frames s.free h.top_chain h.free_chain h.used_distinct h.unused_distinct
          h.apart h.whole)

  -- `stack_peek` returns the last word pushed, or -1 if there is none.
  pub stack_peek-Agrees : stack_peek s ≡ ok (Bounded.peek xs)
  stack_peek-Agrees =
      peek_chains s.frames s.free h.top_chain ∙ ap (λ ys. ok (Bounded.peek ys)) h.content

  pub length-Holds : length xs ≤ stack_capacity
  length-Holds = rw (← h.content) (omega (arith, h.whole, length-values s.frames h.used))
