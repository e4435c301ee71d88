-- ===== src/Invariant/Frame/Writes.antt =====
-- The writes to registers and memory change nothing else.
use weeper_vm.Base.{
  ℕ, zero, suc, ◌+◌, ◌-◌, ◌≡◌, refl, Bool, true, false, Run, ok, Ensures, returns, stuck, bind, ltb,
  leb, ◌==◌, if◌then◌else◌,
}
use weeper_vm.Machine.{Machine, vmem_size, vregs_count, vmem_set, vreg_set}
use weeper_vm.Memory.{
  write_to_vmem_byte, write_to_vmem_short, write_to_vmem_int, write_to_vmem_loop, write_to_vmem,
}
use weeper_vm.Invariant.{branch}
use weeper_vm.Invariant.Frame.{
  Part, code, registers, memory, calls, flags, threads, Same, Frame, Keeps,
}

pub same : (p : Part) (m : Machine) → Same p m m
same code m = refl
same registers m = refl
same memory m = refl
same calls m = refl
same flags m = refl
same threads m = refl

-- A branch that is taken under its condition.
pub under :
    {A : Type 0} {P : A → Type 0} (b : Bool) {x y : Run A}
    → (b ≡ true → Ensures P x)
    → Ensures P y
    → Ensures P (if b then x else y)
under true hx hy = hx refl
under false hx hy = hy

-- From the state `s` on, with `m` the state now.
module _ {w : Part → Bool} {s m : Machine} (f : Frame w s m) where
  pub with_memory : (b : ℕ → ℕ) → w memory ≡ true → Frame w s (record m { vmem = b })
  with_memory b e code h = f code h
  with_memory b e registers h = f registers h
  with_memory b e memory h = cc
  with_memory b e calls h = f calls h
  with_memory b e flags h = f flags h
  with_memory b e threads h = f threads h

  pub with_registers : (r : ℕ → ℕ) → w registers ≡ true → Frame w s (record m { vregs = r })
  with_registers r e code h = f code h
  with_registers r e registers h = cc
  with_registers r e memory h = f memory h
  with_registers r e calls h = f calls h
  with_registers r e flags h = f flags h
  with_registers r e threads h = f threads h

module _ {w : Part → Bool} {s : Machine} (e : w memory ≡ true) where
  pub vmem_set-Frame : {m : Machine} → Frame w s m → (a x : ℕ) → Keeps w s (vmem_set m a x)
  unfolding vmem_set
  vmem_set-Frame f a x = branch (ltb a vmem_size) (returns (with_memory f _ e)) stuck

  guarded-Frame :
      {m : Machine}
      → Frame w s m
      → (b : Bool) (a x : ℕ) → Keeps w s (if b then vmem_set m a x else ok m)
  guarded-Frame f b a x = branch b (vmem_set-Frame f a x) (returns f)

  byte-Frame : {m : Machine} → Frame w s m → (a x k : ℕ) → Keeps w s (write_to_vmem_byte m a x k)
  unfolding write_to_vmem_byte
  byte-Frame f a x k = vmem_set-Frame f a _

  short-Frame : {m : Machine} → Frame w s m → (a x k : ℕ) → Keeps w s (write_to_vmem_short m a x k)
  unfolding write_to_vmem_short
  short-Frame f a x k = bind (vmem_set-Frame f _ _) λ m1 f1. vmem_set-Frame f1 _ _

  int-Frame : {m : Machine} → Frame w s m → (a x k : ℕ) → Keeps w s (write_to_vmem_int m a x k)
  unfolding write_to_vmem_int
  int-Frame f a x k = bind (guarded-Frame f (leb k 0) _ _) λ m1 f1.
      bind (guarded-Frame f1 (leb k 1) _ _)
        λ m2 f2. bind (guarded-Frame f2 (leb k 2) _ _) λ m3 f3. guarded-Frame f3 (leb k 3) _ _

  loop-Frame :
      (rounds : ℕ) {m : Machine}
      → Frame w s m
      → (a x state k : ℕ) → Keeps w s (write_to_vmem_loop rounds m a x state k)
  unfolding write_to_vmem_loop
  loop-Frame zero f a x state k = stuck
  loop-Frame (suc rounds) f a x state k = branch (state == 13) (returns f) (
      branch (state == 10)
        (bind (byte-Frame f a x k) λ m1 f1. loop-Frame rounds f1 a x (state + 3) k)
        (branch (state == 33)
          (bind (short-Frame f a x k) λ m1 f1. loop-Frame rounds f1 a x (state - 30) (k + 2))
          (branch (state == 3)
            (bind (int-Frame f a x k) λ m1 f1. loop-Frame rounds f1 a x (state + 10) k)
            (loop-Frame rounds f a x 13 k))))

  pub write_to_vmem-Frame :
      {m : Machine} → Frame w s m → (a x v trash : ℕ) → Keeps w s (write_to_vmem m a x v trash)
  unfolding write_to_vmem
  write_to_vmem-Frame f a x v trash = loop-Frame 3 f a x _ 0

module _ (m : Machine) where
  pub vreg_set-Frame :
      {w : Part → Bool} {s : Machine}
      → Frame w s m
      → w registers ≡ true
      → (r x : ℕ) → Keeps w s (vreg_set m r x)
  unfolding vreg_set
  vreg_set-Frame f e r x = branch (ltb r vregs_count) (returns (with_registers f _ e)) stuck

  pub unchanged : (w : Part → Bool) → Frame w m m
  unchanged w p h = same p m
