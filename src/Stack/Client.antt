-- ===== src/Stack/Client.antt =====
-- A sequence of calls on a stack, beside the same sequence on the bounded list.
use weeper_vm.Base.{ℕ, ◌≡◌, refl, List, [], ◌∷◌, Run, ok, ◌>>=◌, Returns, gives}
use weeper_vm.Stack.{Stack, stack_init, stack_push, stack_pop, stack_peek}
use weeper_vm.Stack.Bounded
use weeper_vm.Stack.Chain.{Holds}
use weeper_vm.Stack.Refine.{Agrees, stack_push-Agrees, stack_pop-Agrees, stack_peek-Agrees}
use weeper_vm.Stack.Init.{stack_init-Holds}

pub data Op : Type 0 where
  push : ℕ → Op
  pop peek : Op

-- The replies of the calls in order.
unfoldable pub run : List Op → Stack → Run (List ℕ)
run [] s = ok []
run (push x ∷ ops) s = do (n, s') ← stack_push s x; rest ← run ops s'; ok (n ∷ rest)
run (pop ∷ ops) s = do (n, s') ← stack_pop s; rest ← run ops s'; ok (n ∷ rest)
run (peek ∷ ops) s = do n ← stack_peek s; rest ← run ops s; ok (n ∷ rest)

abbrev pub replies : List Op → List ℕ → List ℕ
replies [] xs = []
replies (push x ∷ ops) xs = let (n, xs') = Bounded.push x xs in n ∷ replies ops xs'
replies (pop ∷ ops) xs = let (n, xs') = Bounded.pop xs in n ∷ replies ops xs'
replies (peek ∷ ops) xs = Bounded.peek xs ∷ replies ops xs

-- One call whose outcome agrees with the list, followed by the rest.
call :
    (p : ℕ × List ℕ) (r : Run (ℕ × Stack)) (ops : List Op)
    → Returns (Agrees p) r
    → ((s : Stack) → Holds s p.1 → run ops s ≡ ok (replies ops p.1))
    → (r >>= λ (n, s). run ops s >>= λ rest. ok (n ∷ rest)) ≡ ok (p.0 ∷ replies ops p.1)
call p r ops (gives {a} (e, h)) rest = rw (rest a.1 h, e)

run_holding :
    (ops : List Op) {s : Stack} {xs : List ℕ} → Holds s xs → run ops s ≡ ok (replies ops xs)
unfolding run
run_holding [] h = refl
run_holding (push x ∷ ops) {s} {xs} h =
    call (Bounded.push x xs) (stack_push s x) ops (stack_push-Agrees h x)
      (λ s' h'. run_holding ops h')
run_holding (pop ∷ ops) {s} {xs} h =
    call (Bounded.pop xs) (stack_pop s) ops (stack_pop-Agrees h) (λ s' h'. run_holding ops h')
run_holding (peek ∷ ops) h = rw (stack_peek-Agrees h, run_holding ops h)

-- No sequence of pushes, pops and peeks on a stack fresh from `stack_init` is undefined or can be
-- told, by the values returned, from the same sequence on a list of at most 128 words.
pub run-eq-replies : (ops : List Op) (s : Stack) → run ops (stack_init s) ≡ ok (replies ops [])
run-eq-replies ops s = run_holding ops (stack_init-Holds s)
