-- ===== src/Compiler/Insn/Exit.antt =====
-- What a compiled EXIT does.
use weeper_vm.Base.{ℕ, arith, ◌≡◌, ◌≢◌, refl, false, some, Run, ok, exited, undefined, ◌>>=◌, ◌==◌}
use weeper_vm.Machine.{Machine}
use weeper_vm.Operand.{Operand, op_none}
use weeper_vm.Handler.Control.{handle_exit}
use weeper_vm.Handler.Sys.{Kernel}
use weeper_vm.Emulate.{call_handler, dispatch}
use weeper_vm.Emulate.Select.{select_handler}
use weeper_vm.Compiler.Meaning.{Source, meaning}
use weeper_vm.Compiler.Insn.{Means}

pub exit_through :
    {A B : Type 0} (r : Run ℕ) (f : A → Run B)
    → ((r >>= λ c. exited c) >>= f) ≡ (r >>= λ c. exited c)
exit_through (ok c) f = refl
exit_through (exited c) f = refl
exit_through undefined f = refl

pub exits_through :
    {A B C : Type 0} (r : Run ℕ) (f : A → Run B) (g : B → Run C)
    → ((r >>= λ c. exited c) >>= f) >>= g ≡ (r >>= λ c. exited c)
exits_through (ok c) f g = refl
exits_through (exited c) f g = refl
exits_through undefined f g = refl

typed : (t : ℕ) → t ≢ op_none → (t == op_none) ≡ false
typed t h = ground arith

-- EXIT with an operand ends the thread with what the operand means.
pub dispatch-exit :
    (k : Kernel) (m : Machine) (vip : ℕ) (op1 op2 : Operand) (s : Source)
    → Means m op1 (some s)
    → dispatch k m vip 13 op1 op2 ≡ (meaning m s >>= λ c. exited c)
unfolding dispatch call_handler select_handler handle_exit
dispatch-exit k m vip op1 op2 s (there, means) =
    rw (typed op1.t there, means 0x8d) (exits_through (meaning m s) _ _)
