-- ===== src/Stack.antt =====
-- VM/lib/stack.h and VM/src/stack.c: the call stack of return addresses, a pool of 128 frames that
-- are linked by index, some from `top` and the others from `free`.
pub mod Chain
pub mod Bounded
pub mod Refine
pub mod Init
pub mod Client
use weeper_vm.Base.{
  ℕ, zero, suc, ◌+◌, ◌-◌, ◌^◌, ◌<◌, Option, none, some, Run, ok, undefined, ◌>>=◌, ltb, ◌==◌,
  if◌then◌else◌,
}

-- STACK_CAPACITY
abbrev pub stack_capacity : ℕ
stack_capacity = 128

-- The `-1` of an empty stack and of a full one, as the bits of a 32-bit word.
abbrev pub minus_one : ℕ
minus_one = 2 ^ 32 - 1

-- An index of a frame, or -1.
abbrev pub Link : Type 0
Link = Option ℕ

pub record StackFrame : Type 0 where
  pub value : ℕ
  pub next : Link

abbrev pub Frames : Type 0
Frames = ℕ → StackFrame

pub record Stack : Type 0 where
  pub frames : Frames
  pub top : Link
  pub free : Link

-- `frames[i]`, undefined outside the array.
unfoldable pub frame_at : Frames → ℕ → Run StackFrame
frame_at fr i = if ltb i stack_capacity then ok (fr i) else undefined

-- `frames[i] = f`
abbrev pub set_frame : Frames → ℕ → StackFrame → Frames
set_frame fr i f j = if i == j then f else fr j

-- `frames[i].next = l`
abbrev pub set_next : Frames → ℕ → Link → Frames
set_next fr i l = set_frame fr i (record { value = (fr i).value; next = l })

-- The loop of `stack_init`, with the rounds that are left and the index.
unfoldable pub link_frames : ℕ → ℕ → Frames → Frames
link_frames zero i fr = fr
link_frames (suc left) i fr = link_frames left (i + 1) (set_next fr i (some (i + 1)))

unfoldable pub stack_init : Stack → Stack
stack_init s =
    let linked = link_frames (stack_capacity - 1) 0 s.frames in
    record { frames = set_next linked (stack_capacity - 1) none; top = none; free = some 0 }

-- The status is 0, or -1 if the stack is full.
unfoldable pub stack_push : Stack → ℕ → Run (ℕ × Stack)
stack_push s x = elim s.free [
  | none ↦ ok (minus_one, s)
  | some i ↦ do
    f ← frame_at s.frames i
    ok (
      0,
      record {
        frames = set_frame s.frames i (record { value = x; next = s.top });
        top = some i;
        free = f.next;
      },
    )
]

unfoldable pub stack_pop : Stack → Run (ℕ × Stack)
stack_pop s = elim s.top [
  | none ↦ ok (minus_one, s)
  | some i ↦ do
    f ← frame_at s.frames i
    ok (
      f.value,
      record {
        frames = set_frame s.frames i (record { value = f.value; next = s.free });
        top = f.next;
        free = some i;
      },
    )
]

unfoldable pub stack_peek : Stack → Run ℕ
stack_peek s = elim s.top [ none ↦ ok minus_one | some i ↦ do f ← frame_at s.frames i; ok f.value ]
