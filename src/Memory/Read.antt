-- ===== src/Memory/Read.antt =====
-- Reads of two and of four bytes against the reference.
use weeper_vm.Base.{ℕ, ◌+◌, ◌*◌, ◌≤◌, ◌<◌, ◌≡◌, arith, ok}
use weeper_vm.Base.Bits.{or_join}
use weeper_vm.Machine.{Machine, vmem_size, vmem_at}
use weeper_vm.Memory.Store.{get_bytes}
use weeper_vm.Operand.{vmem_short, vmem_int}

module _ (m : Machine) (bytes : (a : ℕ) → m.vmem a < 256) (a : ℕ) where
  pub vmem_at-get_bytes : a + 1 ≤ vmem_size → vmem_at m a ≡ ok (get_bytes 1 m.vmem a)
  unfolding vmem_at
  vmem_at-get_bytes h = ground arith

  pub vmem_short-get_bytes : a + 2 ≤ vmem_size → vmem_short m a ≡ ok (get_bytes 2 m.vmem a)
  unfolding vmem_short vmem_at
  vmem_short-get_bytes h = ground (arith, or_join 8 (m.vmem a) (m.vmem (a + 1)) (bytes (a + 1)))

  pub vmem_int-get_bytes : a + 4 ≤ vmem_size → vmem_int m a ≡ ok (get_bytes 4 m.vmem a)
  unfolding vmem_int vmem_at
  vmem_int-get_bytes h =
      let b0 = m.vmem a in
      let b1 = m.vmem (a + 1) in
      let b2 = m.vmem (a + 2) in
      let h1 : b1 < 256 = bytes (a + 1) in
      let h2 : b2 < 256 = bytes (a + 2) in
      let h3 : m.vmem (a + 3) < 256 = bytes (a + 3) in
      ground (
        arith,
        or_join 24 b0 (b1 * 65536) (omega arith),
        or_join 16 (b0 * 256 + b1) (b2 * 256) (omega arith),
        or_join 8 (b0 * 65536 + b1 * 256 + b2) (m.vmem (a + 3)) h3,
      )
