-- ===== src/Stack/Chain.antt =====
-- The frames that a link leads to, and what a stack holds.
use weeper_vm.Base.{
  ℕ, ◌+◌, ◌<◌, ◌≡◌, refl, Bool, true, false, ◌||◌, none, some, List, [], ◌∷◌, map, arith, ◌==◌,
  length,
}
use weeper_vm.Stack.{stack_capacity, Link, StackFrame, Frames, Stack, set_frame}

abbrev pub has : ℕ → List ℕ → Bool
has a [] = false
has a (i ∷ is) = (a == i) || has a is

abbrev pub AllDistinct : List ℕ → Type 0
AllDistinct [] = Unit
AllDistinct (i ∷ is) = (has i is ≡ false) × AllDistinct is

-- From the link the `next` indices lead through these frames, all in range, to -1.
pub data Chain (fr : Frames) : Link → List ℕ → Type 0 where
  end : Chain fr none []
  step :
      {i : ℕ} {l : Link} {is : List ℕ}
      → i < stack_capacity
      → (fr i).next ≡ l
      → Chain fr l is
      → Chain fr (some i) (i ∷ is)

abbrev pub values : Frames → List ℕ → List ℕ
values fr is = map (λ i. (fr i).value) is

-- `xs` is on the stack, the last pushed first: the frames in use and the free ones are two
-- chains that share no frame and together have every frame.
pub record Holds (s : Stack) (xs : List ℕ) : Type 0 where
  pub used : List ℕ
  pub unused : List ℕ
  pub top_chain : Chain s.frames s.top used
  pub free_chain : Chain s.frames s.free unused
  pub used_distinct : AllDistinct used
  pub unused_distinct : AllDistinct unused
  pub apart : (a : ℕ) → has a used ≡ true → has a unused ≡ false
  pub whole : length used + length unused ≡ stack_capacity
  pub content : values s.frames used ≡ xs

-- A write to a frame that is not in a chain leaves the chain and its values alone.
pub Chain-set_frame :
    {fr : Frames} {l : Link} {is : List ℕ} (a : ℕ) (f : StackFrame)
    → Chain fr l is
    → has a is ≡ false
    → Chain (set_frame fr a f) l is
Chain-set_frame a f end out = end
Chain-set_frame {fr} a f (step {i} {l} {is} h e c) out =
    step h (ground arith) (Chain-set_frame a f c (ground arith))

pub values-set_frame :
    (fr : Frames) (is : List ℕ) (a : ℕ) (f : StackFrame)
    → has a is ≡ false
    → values (set_frame fr a f) is ≡ values fr is
values-set_frame fr [] a f out = refl
values-set_frame fr (i ∷ is) a f out = ground (arith, values-set_frame fr is a f)

pub length-values : (fr : Frames) (is : List ℕ) → length (values fr is) ≡ length is
length-values fr [] = refl
length-values fr (i ∷ is) = ground (arith, length-values fr is)
