-- ===== src/Stack/Bounded.antt =====
-- What a client of the call stack may rely on: a list of at most 128 words, the last pushed first.
use weeper_vm.Base.{ℕ, List, [], ◌∷◌, ltb, if◌then◌else◌, length}
use weeper_vm.Stack.{stack_capacity, minus_one}

abbrev pub push : ℕ → List ℕ → ℕ × List ℕ
push x xs = if ltb (length xs) stack_capacity then (0, x ∷ xs) else (minus_one, xs)

abbrev pub pop : List ℕ → ℕ × List ℕ
pop [] = (minus_one, [])
pop (x ∷ xs) = (x, xs)

abbrev pub peek : List ℕ → ℕ
peek [] = minus_one
peek (x ∷ xs) = x
