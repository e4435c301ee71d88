-- ===== src/Memory.antt =====
-- VM/src/emulate.c: the truncation macros, VMEM_EXPANSION and the `writeToVmem` functions.
pub mod Mask
pub mod Store
pub mod Laws
pub mod Words
pub mod Read
use weeper_vm.Base.{
  ℕ, zero, suc, ◌+◌, ◌-◌, ◌*◌, ◌/◌, ◌%◌, ◌^◌, bit_and, bit_or, bit_xor, Run, ok, undefined, ◌>>=◌,
  u32, sub32, not32, ◌<<<◌, ◌>>>◌, ltb, leb, ◌==◌, if◌then◌else◌,
}
use weeper_vm.Machine.{Machine, vmem_at, vmem_set}

-- WeeperOp_v
abbrev pub v_null : ℕ
v_null = 0

abbrev pub v_byte : ℕ
v_byte = 1

abbrev pub v_short : ℕ
v_short = 2

abbrev pub v_int : ℕ
v_int = 3

-- POST_V_TRUNCATION
unfoldable pub post_v_truncation : ℕ → ℕ → ℕ
post_v_truncation x v =
    if v == v_byte
    then bit_and x 0xff
    else if v == v_short
    then bit_and x 0xffff
    else if v == v_int
    then bit_and x 0xffffffff
    else x

-- PRE_V_TRUNCATION
unfoldable pub pre_v_truncation : ℕ → ℕ → ℕ
pre_v_truncation x v =
    if v == v_byte
    then bit_and x 0xffffff00
    else if v == v_short
    then bit_and x 0xffff0000
    else if v == v_int
    then 0
    else x

-- VMEM_EXPANSION, with `mem` at the address `a`
unfoldable pub vmem_expansion : Machine → ℕ → ℕ → ℕ → Run ℕ
vmem_expansion m a x v =
    if v == v_byte
    then (do
      b1 ← vmem_at m (a + 1)
      b2 ← vmem_at m (a + 2)
      b3 ← vmem_at m (a + 3)
      ok (bit_or (bit_or (bit_or x (b1 <<< 8)) (b2 <<< 16)) (b3 <<< 24)))
    else if v == v_short
    then (do
      b2 ← vmem_at m (a + 2)
      b3 ← vmem_at m (a + 3)
      ok (bit_or (bit_or x (b2 <<< 16)) (b3 <<< 24)))
    else ok x

module _ (m : Machine) (a x : ℕ) where
  unfoldable pub write_to_vmem_byte : ℕ → Run Machine
  write_to_vmem_byte adj = vmem_set m a (bit_and x 0xff)

  unfoldable pub write_to_vmem_short : ℕ → Run Machine
  write_to_vmem_short adj = do
    m1 ← vmem_set m (a + 0 - adj) (bit_and x 0xff00 >>> 8)
    vmem_set m1 (a + 1 - adj) (bit_and x 0xff)

  unfoldable pub write_to_vmem_int : ℕ → Run Machine
  write_to_vmem_int adj = do
    m1 ← if leb adj 0 then vmem_set m (a + 0 - adj) (bit_and x 0xff000000 >>> 24) else ok m
    m2 ← if leb adj 1 then vmem_set m1 (a + 1 - adj) (bit_and x 0xff0000 >>> 16) else ok m1
    m3 ← if leb adj 2 then vmem_set m2 (a + 2 - adj) (bit_and x 0xff00 >>> 8) else ok m2
    if leb adj 3 then vmem_set m3 (a + 3 - adj) (bit_and x 0xff) else ok m3

-- The `while` of `writeToVmem` at a value of `state` and of `k`. Two rounds are the most that any
-- start takes; the third ends the loop.
unfoldable pub write_to_vmem_loop : ℕ → Machine → (a x state k : ℕ) → Run Machine
write_to_vmem_loop zero m a x state k = undefined
write_to_vmem_loop (suc rounds) m a x state k =
    if state == 13
    then ok m
    else if state == 10
    then (do m' ← write_to_vmem_byte m a x k; write_to_vmem_loop rounds m' a x (state + 3) k)
    else if state == 33
    then (do
      m' ← write_to_vmem_short m a x k
      write_to_vmem_loop rounds m' a x (state - 30) (k + 2))
    else if state == 3
    then (do m' ← write_to_vmem_int m a x k; write_to_vmem_loop rounds m' a x (state + 10) k)
    else write_to_vmem_loop rounds m a x 13 k

-- `((junk | v) & 0xFF) % 4` with its junk: which writer is chosen.
unfoldable pub writer_index : ℕ → ℕ → ℕ
writer_index v trash =
    let junk = bit_and (bit_xor (sub32 v (not32 0xa1)) trash) 0x7c in
    bit_and (bit_or junk v) 0xff % 4

-- `writeToVmem`: `x` to the address `a`, as a value of size `v`
unfoldable pub write_to_vmem : Machine → (a x v trash : ℕ) → Run Machine
write_to_vmem m a x v trash =
    let i = writer_index v trash in
    let state = if i == 1 then 10 else if i == 2 then 33 else if i == 3 then 3 else 13 in
    write_to_vmem_loop 3 m a x state 0
