-- ===== src/Stack/Init.antt =====
-- `stack_init` leaves every frame free, whatever was in the array.
use weeper_vm.Base.{
  ℕ, zero, suc, ◌+◌, ◌-◌, ◌<◌, ◌≤◌, ◌≡◌, refl, false, none, some, List, [], ◌∷◌, arith, length,
  ◌==◌, if◌then◌else◌, inl, inr, Bool-cases,
}
use weeper_vm.Stack.{stack_capacity, Frames, Stack, set_next, link_frames, stack_init}
use weeper_vm.Stack.Chain.{has, AllDistinct, Chain, end, step, Holds}

link_frames-below : (left i : ℕ) (fr : Frames) (j : ℕ) → j < i → link_frames left i fr j ≡ fr j
unfolding link_frames
link_frames-below zero i fr j h = refl
link_frames-below (suc left) i fr j h =
    ground (arith, link_frames-below left (i + 1) (set_next fr i (some (i + 1))) j)

-- What the loop leaves in a frame: the next index, from `i` on for `left` frames.
link_frames-next :
    (left i : ℕ) (fr : Frames) (j : ℕ)
    → i ≤ j
    → j < i + left
    → (link_frames left i fr j).next ≡ some (j + 1)
unfolding link_frames
link_frames-next zero i fr j lo hi = absurd (omega arith)
link_frames-next (suc left) i fr j lo hi =
    let linked : Frames = set_next fr i (some (i + 1)) in
    elim (Bool-cases (i == j)) [
      | inl e ↦ ground (arith, link_frames-below left (i + 1) linked j)
      | inr e ↦ link_frames-next left (i + 1) linked j (ground arith) (omega arith)
    ]

upto : ℕ → ℕ → List ℕ
upto zero i = []
upto (suc n) i = i ∷ upto n (i + 1)

length-upto : (n i : ℕ) → length (upto n i) ≡ n
unfolding upto
length-upto zero i = refl
length-upto (suc n) i = omega (arith, length-upto n (i + 1))

not-has-upto : (n i a : ℕ) → a < i → has a (upto n i) ≡ false
unfolding upto
not-has-upto zero i a h = refl
not-has-upto (suc n) i a h = ground (arith, not-has-upto n (i + 1) a)

upto-AllDistinct : (n i : ℕ) → AllDistinct (upto n i)
unfolding upto
upto-AllDistinct zero i = tt
upto-AllDistinct (suc n) i = (not-has-upto n (i + 1) i (omega arith), upto-AllDistinct n (i + 1))

-- What `stack_init` leaves in the frames.
IsLinked : Frames → Type 0
IsLinked fr =
    (j : ℕ)
    → j < stack_capacity
    → (fr j).next ≡ (if j + 1 == stack_capacity then none else some (j + 1))

Chain-of_linked :
    (fr : Frames)
    → IsLinked fr
    → (n i : ℕ) → i + suc n ≡ stack_capacity
    → Chain fr (some i) (upto (suc n) i)
unfolding upto IsLinked
Chain-of_linked fr linked zero i e = step (omega arith) (ground (arith, linked i)) end
Chain-of_linked fr linked (suc n) i e =
    step (omega arith) (ground (arith, linked i))
      (Chain-of_linked fr linked n (i + 1) (omega arith))

stack_init-IsLinked : (s : Stack) → IsLinked (stack_init s).frames
unfolding IsLinked stack_init
stack_init-IsLinked s j h = ground (arith, link_frames-next (stack_capacity - 1) 0 s.frames j)

stack_init-top : (s : Stack) → (stack_init s).top ≡ none
unfolding stack_init
stack_init-top s = refl

stack_init-free : (s : Stack) → (stack_init s).free ≡ some 0
unfolding stack_init
stack_init-free s = refl

-- After `stack_init`, whatever the memory held before, the stack holds nothing and all 128 frames
-- are free.
pub stack_init-Holds : (s : Stack) → Holds (stack_init s) []
stack_init-Holds s = record {
  used = [];
  unused = upto stack_capacity 0;
  top_chain = rw (stack_init-top s) end;
  free_chain =
      rw (stack_init-free s)
        (Chain-of_linked (stack_init s).frames (stack_init-IsLinked s) 127 0 (omega arith));
  used_distinct = tt;
  unused_distinct = upto-AllDistinct stack_capacity 0;
  apart = λ a h. cc;
  whole = omega (arith, length-upto stack_capacity 0);
  content = refl;
}
