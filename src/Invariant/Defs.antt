-- ===== src/Invariant/Defs.antt =====
-- The invariant.
use weeper_vm.Base.{
  ℕ, ◌^◌, ◌<◌, ◌≡◌, ◌⊎◌, Bool, true, false, List, Run, Ensures, All, if◌then◌else◌,
}
use weeper_vm.Machine.{Machine}
use weeper_vm.Stack.{Stack}
use weeper_vm.Stack.Chain.{Holds}

abbrev pub IsByte : ℕ → Type 0
IsByte x = x < 256

abbrev pub IsWord : ℕ → Type 0
IsWord x = x < 2 ^ 32

-- No flag, or one of the three that CMP sets.
abbrev pub IsFlag : ℕ → Type 0
IsFlag f = (f ≡ 0) ⊎ (f ≡ 1) ⊎ (f ≡ 2) ⊎ (f ≡ 4)

-- A return address has 24 bits.
abbrev pub IsCall : Stack → Type 0
IsCall s = (xs : List ℕ) × Holds s xs × All (λ x. x < 2 ^ 24) xs

pub record IsWf (m : Machine) : Type 0 where
  pub code_bytes : All IsByte m.vcode
  pub mem_bytes : (a : ℕ) → IsByte (m.vmem a)
  pub reg_words : (r : ℕ) → IsWord (m.vregs r)
  pub flag : IsFlag m.vflag
  pub calls : IsCall m.call_stack

pub branch :
    {A : Type 0} {P : A → Type 0} (b : Bool) {x y : Run A}
    → Ensures P x
    → Ensures P y
    → Ensures P (if b then x else y)
branch true hx hy = hx
branch false hx hy = hy
