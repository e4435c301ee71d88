-- ===== src/Tests/Meet.antt =====
-- The handshake of FORK, and the header of an instruction that is fetched.
use weeper_vm.Base.{◌+◌, ◌*◌, ◌≤◌, ◌≡◌, ◌≢◌, ◌⊎◌, refl, arith, ok}
use weeper_vm.Threads.Ready.{
  passed, faulted, gone, State, woken, child_next, is_mapped, parent_next, Runs, start, of_child,
  of_parent, Met,
}
use weeper_vm.Threads.Ready.Handshake.{CanStep, Runs-Met}
use weeper_vm.Emulate.Decode.{InsnHdr, fetch, decode}
use weeper_vm.Emulate.Decode.Fields.{IsHdr, IsDecoded, fetch-IsHdr}
use weeper_vm.Tests.{started, started-IsWf}

-- The parent is late: it reads the flag when the child has gone.
abbrev late : State
late = record { flag = 1; parent = faulted; child = gone }

slow_parent : Runs 5 0 late
unfolding woken child_next parent_next is_mapped
slow_parent = of_parent (of_parent (of_child (of_child (of_child start refl) refl) refl) refl) refl

Runs-Met_example :
    ((faulted ≢ passed) ⊎ (late.flag ≡ 1))
    × ((faulted ≢ faulted) ⊎ (late.child ≡ gone))
    × (Met late ⊎ CanStep late)
    × (5 ≤ 5 + 3 * 0)
Runs-Met_example = Runs-Met slow_parent

fetch-IsHdr_example : (h : InsnHdr) × (fetch started 0 ≡ ok h) × IsHdr h × IsDecoded 0 (decode 0 h)
fetch-IsHdr_example = fetch-IsHdr started 0 started-IsWf (omega arith)
