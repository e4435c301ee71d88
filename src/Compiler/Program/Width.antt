-- ===== src/Compiler/Program/Width.antt =====
-- The width of what a source means.
use weeper_vm.Base.{ℕ, zero, suc, ◌+◌, ◌^◌, ◌<◌, ◌≤◌, arith, Ensures, returns, stuck}
use weeper_vm.Machine.{Machine}
use weeper_vm.Memory.Store.{size_of, load, get_bytes}
use weeper_vm.Handler.Arith.Reg.{span}
use weeper_vm.Invariant.{IsWf, branch}
use weeper_vm.Compiler.Meaning.{Source, reg, imm, mem_sum, mem_disp, mem_base, mem_at, meaning}
use weeper_vm.Compiler.Program.{source_size}

-- A value of a size is below the span of every size that is as wide.
get_bytes-lt : (n : ℕ) (m : Machine) (a : ℕ) → IsWf m → get_bytes n m.vmem a < 256 ^ n
get_bytes-lt zero m a wf = omega arith
get_bytes-lt (suc n) m a wf =
    let rest : get_bytes n m.vmem (a + 1) < 256 ^ n = get_bytes-lt n m (a + 1) wf in
    let here : m.vmem a < 256 = wf.mem_bytes a in grind (arith, here, rest)

load-lt : (n : ℕ) (m : Machine) (a : ℕ) → IsWf m → Ensures (λ x. x < 256 ^ n) (load n m a)
load-lt n m a wf = branch _ (returns (get_bytes-lt n m a wf)) stuck

span-pos : (v : ℕ) → 1 ≤ span v
span-pos v = ground arith

pub meaning-lt :
    (m : Machine) (s : Source) → IsWf m → Ensures (λ x. x < span (source_size s)) (meaning m s)
meaning-lt m (reg v r) wf = returns (omega (arith, span-pos v))
meaning-lt m (imm v x) wf = returns (omega (arith, span-pos v))
meaning-lt m (mem_sum v bv br dv dr) wf = load-lt (size_of v) m _ wf
meaning-lt m (mem_disp v bv br dv d) wf = load-lt (size_of v) m _ wf
meaning-lt m (mem_base v bv br) wf = load-lt (size_of v) m _ wf
meaning-lt m (mem_at v av a) wf = load-lt (size_of v) m _ wf

pub span_mono : (v w : ℕ) → w ≤ 3 → v ≤ w → span v ≤ span w
span_mono v w h k = ground arith
