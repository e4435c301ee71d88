-- ===== src/Threads/Ready/Handshake.antt =====
-- The handshake of FORK is safe, and ends.
use mathlib.Core.Option.{some-injective}
use weeper_vm.Base.{
  ℕ, zero, suc, ◌+◌, ◌*◌, ◌≤◌, ◌≡◌, ◌≢◌, ◌⊎◌, inl, inr, refl, sym, subst, arith, some,
}
use weeper_vm.Threads.Ready.{
  Parent, calls, asleep, tests, passed, faulted, Child, sets, wakes, runs, gone, State, woken,
  child_next, is_mapped, parent_next, Runs, start, of_child, of_parent, no_reason, Met,
}

-- The flag is set exactly once the child has set it, the parent passes only then, it is not asleep
-- once the child has woken it, and it faults only once the memory is unmapped.
abbrev Sound : ℕ → Parent → Child → Type 0
Sound f p sets = (f ≡ 0) × (p ≢ passed) × (p ≢ faulted)
Sound f p wakes = (f ≡ 1) × (p ≢ faulted)
Sound f p runs = (f ≡ 1) × (p ≢ asleep) × (p ≢ faulted)
Sound f p gone = (f ≡ 1) × (p ≢ asleep)

-- The steps that are left at most, without a return for no reason.
abbrev parent_left : ℕ → Parent → ℕ
parent_left f calls = 2
parent_left f asleep = 1
parent_left zero tests = 3
parent_left (suc f) tests = 1
parent_left f passed = 0
parent_left f faulted = 0

abbrev child_left : Child → ℕ
child_left sets = 3
child_left wakes = 2
child_left runs = 1
child_left gone = 0

abbrev left : State → ℕ
left s = parent_left s.flag s.parent + child_left s.child

abbrev IsSound : State → Type 0
IsSound s = Sound s.flag s.parent s.child

-- A step keeps the state sound, and one less is left.
abbrev Nearer : ℕ → State → Type 0
Nearer n t = IsSound t × (suc (left t) ≤ n)

abbrev state : ℕ → Parent → Child → State
state f p c = record { flag = f; parent = p; child = c }

wakes_all :
    (p : Parent)
    → p ≢ faulted
    → (woken p ≢ asleep) × (woken p ≢ faulted) × (parent_left 1 (woken p) ≤ parent_left 1 p)
unfolding woken
wakes_all calls h = (cc, cc, omega arith)
wakes_all asleep h = (cc, cc, omega arith)
wakes_all tests h = (cc, cc, omega arith)
wakes_all passed h = (cc, cc, omega arith)
wakes_all faulted h = absurd (h refl)

set_left : (p : Parent) → parent_left 1 p ≤ parent_left 0 p
set_left calls = omega arith
set_left asleep = omega arith
set_left tests = omega arith
set_left passed = omega arith
set_left faulted = omega arith

child-Nearer :
    (f : ℕ) (p : Parent) (c : Child) (t : State)
    → Sound f p c
    → child_next (state f p c) c ≡ some t
    → Nearer (left (state f p c)) t
unfolding child_next
child-Nearer f p sets t (unset, _, mapped) e =
    subst (Nearer (left (state f p sets))) (some-injective _ _ e) (
      (refl, mapped),
      subst (λ (n : ℕ). suc (parent_left 1 p + 2) ≤ parent_left n p + 3) (sym unset)
          (omega (arith, set_left p)),
    )
child-Nearer f p wakes t (set, mapped) e =
    let (awake, still, less) = wakes_all p mapped in
    subst (Nearer (left (state f p wakes))) (some-injective _ _ e) (
      (set, awake, still),
      subst (λ (n : ℕ). suc (parent_left n (woken p) + 1) ≤ parent_left n p + 2) (sym set)
          (omega (arith, less)),
    )
child-Nearer f p runs t (set, awake, _) e =
    subst (Nearer (left (state f p runs))) (some-injective _ _ e) ((set, awake), omega arith)
child-Nearer f p gone t sound e = cc

-- The flag of a sound state.
abbrev flag_of : Child → ℕ
flag_of sets = 0
flag_of wakes = 1
flag_of runs = 1
flag_of gone = 1

Sound-flag : (f : ℕ) (p : Parent) (c : Child) → Sound f p c → flag_of c ≡ f
Sound-flag f p sets sound = sym sound.0
Sound-flag f p wakes sound = sym sound.0
Sound-flag f p runs sound = sym sound.0
Sound-flag f p gone sound = sym sound.0

parent_flag-Nearer :
    (p : Parent) (c : Child) (t : State)
    → Sound (flag_of c) p c
    → parent_next (state (flag_of c) p c) p ≡ some t
    → Nearer (left (state (flag_of c) p c)) t
unfolding parent_next is_mapped
parent_flag-Nearer calls sets t sound e =
    subst (Nearer 5) (some-injective _ _ e) ((refl, cc, cc), omega arith)
parent_flag-Nearer tests sets t sound e =
    subst (Nearer 6) (some-injective _ _ e) ((refl, cc, cc), omega arith)
parent_flag-Nearer calls wakes t sound e =
    subst (Nearer 4) (some-injective _ _ e) ((refl, cc), omega arith)
parent_flag-Nearer tests wakes t sound e =
    subst (Nearer 3) (some-injective _ _ e) ((refl, cc), omega arith)
parent_flag-Nearer calls runs t sound e =
    subst (Nearer 3) (some-injective _ _ e) ((refl, cc, cc), omega arith)
parent_flag-Nearer tests runs t sound e =
    subst (Nearer 2) (some-injective _ _ e) ((refl, cc, cc), omega arith)
parent_flag-Nearer calls gone t sound e =
    subst (Nearer 2) (some-injective _ _ e) ((refl, cc), omega arith)
parent_flag-Nearer tests gone t sound e =
    subst (Nearer 1) (some-injective _ _ e) ((refl, cc), omega arith)
parent_flag-Nearer asleep c t sound e = cc
parent_flag-Nearer passed c t sound e = cc
parent_flag-Nearer faulted c t sound e = cc

parent-Nearer :
    (f : ℕ) (p : Parent) (c : Child) (t : State)
    → Sound f p c
    → parent_next (state f p c) p ≡ some t
    → Nearer (left (state f p c)) t
parent-Nearer f p c t sound =
    subst
      (λ (n : ℕ).
        Sound n p c → parent_next (state n p c) p ≡ some t → Nearer (left (state n p c)) t)
      (Sound-flag f p c sound) (parent_flag-Nearer p c t) sound

-- A return for no reason costs the parent two more steps.
abbrev Late : ℕ → State → Type 0
Late n t = IsSound t × (left t ≤ n + 2)

tests_late : (f : ℕ) → parent_left f tests ≤ 3
tests_late zero = omega arith
tests_late (suc f) = omega arith

idle-Late :
    (f : ℕ) (p : Parent) (c : Child)
    → Sound f p c
    → p ≡ asleep
    → Late (left (state f p c)) (state f tests c)
idle-Late f asleep sets sound e = ((sound.0, cc, cc), omega (arith, tests_late f))
idle-Late f asleep wakes sound e = ((sound.0, cc), omega (arith, tests_late f))
idle-Late f asleep runs sound e = absurd (sound.1 refl)
idle-Late f asleep gone sound e = absurd (sound.1 refl)
idle-Late f calls c sound e = cc
idle-Late f tests c sound e = cc
idle-Late f passed c sound e = cc
idle-Late f faulted c sound e = cc

Runs-Sound : {n k : ℕ} {s : State} → Runs n k s → IsSound s × (n + left s ≤ 5 + 3 * k)
Runs-Sound start = ((refl, cc, cc), omega arith)
Runs-Sound (of_child {s} r e) =
    let (sound, bound) = Runs-Sound r in
    let (sound', less) = child-Nearer s.flag s.parent s.child _ sound e in
    (sound', omega (arith, bound, less))
Runs-Sound (of_parent {s} r e) =
    let (sound, bound) = Runs-Sound r in
    let (sound', less) = parent-Nearer s.flag s.parent s.child _ sound e in
    (sound', omega (arith, bound, less))
Runs-Sound (no_reason {s} r e) =
    let (sound, bound) = Runs-Sound r in
    let (sound', less) = idle-Late s.flag s.parent s.child sound e in
    (sound', omega (arith, bound, less))

-- Something that can be done, and is not the end of the child's `emulate`.
abbrev pub CanStep : State → Type 0
CanStep s =
    (t : State) × (((s.child ≢ runs) × (child_next s s.child ≡ some t))
      ⊎ (parent_next s s.parent ≡ some t))

proceeds :
    (f : ℕ) (p : Parent) (c : Child) → Sound f p c → Met (state f p c) ⊎ CanStep (state f p c)
unfolding child_next parent_next
proceeds f p sets sound = inr (_, inl (cc, refl))
proceeds f p wakes sound = inr (_, inl (cc, refl))
proceeds f calls runs sound = inr (_, inr refl)
proceeds f asleep runs sound = absurd (sound.1 refl)
proceeds f tests runs sound = inr (_, inr refl)
proceeds f passed runs sound = inl (inl refl, inl refl)
proceeds f faulted runs sound = absurd (sound.2 refl)
proceeds f calls gone sound = inr (_, inr refl)
proceeds f asleep gone sound = absurd (sound.1 refl)
proceeds f tests gone sound = inr (_, inr refl)
proceeds f passed gone sound = inl (inl refl, inr refl)
proceeds f faulted gone sound = inl (inr refl, inr refl)

-- Passed with the flag, and faulted without the memory only.
abbrev Fair : State → Type 0
Fair s = ((s.parent ≢ passed) ⊎ (s.flag ≡ 1)) × ((s.parent ≢ faulted) ⊎ (s.child ≡ gone))

passes : (f : ℕ) (p : Parent) (c : Child) → Sound f p c → Fair (state f p c)
passes f p sets sound = (inl sound.1, inl sound.2)
passes f p wakes sound = (inr sound.0, inl sound.1)
passes f p runs sound = (inr sound.0, inl sound.2)
passes f p gone sound = (inr sound.0, inr refl)

-- How the two threads of a FORK meet. In every interleaving of the child, the parent and returns of
-- WAIT that have no reason: the parent is behind its loop only once the child has set the flag; it
-- faults on its read of the flag only once the child is back from `emulate` and has unmapped the
-- memory of the flag; as long as not both are behind the handshake, one of them has a step to make
-- that is not the end of the child's `emulate`, so no wake-up is lost; and the steps are at most 5,
-- and 3 more for each return that has no reason.
pub Runs-Met :
    {n k : ℕ} {s : State}
    → Runs n k s
    → ((s.parent ≢ passed) ⊎ (s.flag ≡ 1))
      × ((s.parent ≢ faulted) ⊎ (s.child ≡ gone))
      × (Met s ⊎ CanStep s)
      × (n ≤ 5 + 3 * k)
Runs-Met {s} r =
    let (sound, bound) = Runs-Sound r in
    let (flagged, mapped) = passes s.flag s.parent s.child sound in
    (flagged, mapped, proceeds s.flag s.parent s.child sound, omega (arith, bound))
