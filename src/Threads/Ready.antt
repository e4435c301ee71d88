-- ===== src/Threads/Ready.antt =====
-- How the two threads of a FORK meet: the word `ready_flag` at the start of the child's stack, which
-- the child sets before it wakes the parent, and for which the parent waits. The kernel's part is
-- as futex(2) has it: WAIT returns at once if the word is not the 0 that is expected or is not
-- mapped, and sleeps otherwise until a WAKE, or for no reason.
pub mod Handshake
use weeper_vm.Base.{
  ℕ, zero, suc, ◌+◌, ◌≡◌, ◌⊎◌, Option, none, some, Bool, true, false, not, ◌==◌, if◌then◌else◌,
}

-- The parent in its loop: before the call, asleep in it, behind it, behind the loop, and ended by a
-- read of the flag where nothing is mapped.
pub data Parent : Type 0 where
  calls asleep tests passed faulted : Parent

-- The child: before it sets the flag, before it wakes, in `sys_sleep` and `emulate`, and behind
-- `sys_munmap`. The memory that it unmaps is the one that holds the flag.
pub data Child : Type 0 where
  sets wakes runs gone : Child

pub record State : Type 0 where
  pub flag : ℕ
  pub parent : Parent
  pub child : Child

-- `*(ready_flag) = 0`, and both threads after CLONE3.
abbrev pub at_fork : State
at_fork = record { flag = 0; parent = calls; child = sets }

-- WAKE lets a thread that is asleep return from its call.
unfoldable pub woken : Parent → Parent
woken asleep = tests
woken calls = calls
woken tests = tests
woken passed = passed
woken faulted = faulted

-- What the child does next, in `if(ret == 0)`. `emulate` may go on for any time, or return.
unfoldable pub child_next : State → Child → Option State
child_next s sets = some (record s { flag = 1; child = wakes })
child_next s wakes = some (record s { parent = woken s.parent; child = runs })
child_next s runs = some (record s { child = gone })
child_next s gone = none

-- Whether the word of the flag is mapped.
unfoldable pub is_mapped : Child → Bool
is_mapped sets = true
is_mapped wakes = true
is_mapped runs = true
is_mapped gone = false

-- What the parent does next, in the loop `do ... while(*ready_flag == 0)`. The result of WAIT is
-- not looked at.
unfoldable pub parent_next : State → Parent → Option State
parent_next s calls = some (record s {
  parent = if not (is_mapped s.child) then tests else if s.flag == 0 then asleep else tests;
})
parent_next s asleep = none
parent_next s tests = some (record s {
  parent = if not (is_mapped s.child) then faulted else if s.flag == 0 then calls else passed;
})
parent_next s passed = none
parent_next s faulted = none

-- The runs from the fork, with the number of their steps and of those returns of WAIT that have no
-- reason.
pub data Runs : (steps idle : ℕ) → State → Type 0 where
  start : Runs 0 0 at_fork
  of_child : {n k : ℕ} {s t : State} → Runs n k s → child_next s s.child ≡ some t → Runs (suc n) k t
  of_parent :
      {n k : ℕ} {s t : State} → Runs n k s → parent_next s s.parent ≡ some t → Runs (suc n) k t
  no_reason :
      {n k : ℕ} {s : State}
      → Runs n k s
      → s.parent ≡ asleep
      → Runs (suc n) (suc k) (record s { parent = tests })

-- Both are behind the handshake.
abbrev pub Met : State → Type 0
Met s = ((s.parent ≡ passed) ⊎ (s.parent ≡ faulted)) × ((s.child ≡ runs) ⊎ (s.child ≡ gone))
