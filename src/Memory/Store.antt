-- ===== src/Memory/Store.antt =====
-- The reference for memory accesses: the bytes of a word, the highest first.
use weeper_vm.Base.{
  ℕ, zero, suc, ◌+◌, ◌*◌, ◌/◌, ◌%◌, ◌^◌, Bool, ◌||◌, Run, ok, undefined, leb, ◌==◌, if◌then◌else◌,
}
use weeper_vm.Machine.{Bytes, Machine, vmem_size, update}

-- The number of bytes of a value of size `v`.
abbrev pub size_of : ℕ → ℕ
size_of v = if v == 1 then 1 else if v == 2 then 2 else if v == 3 then 4 else 0

-- The memory after the `n` low bytes of `x` are put at `a`, the highest first.
abbrev pub put_bytes : ℕ → Bytes → ℕ → ℕ → Bytes
put_bytes zero b a x = b
put_bytes (suc n) b a x = put_bytes n (update b a (x / 256 ^ n % 256)) (a + 1) x

-- The number that the `n` bytes at `a` stand for.
abbrev pub get_bytes : ℕ → Bytes → ℕ → ℕ
get_bytes zero b a = 0
get_bytes (suc n) b a = b a * 256 ^ n + get_bytes n b (a + 1)

-- The `n` bytes at `a` lie in `vmem`.
abbrev pub in_vmem : ℕ → ℕ → Bool
in_vmem n a = n == 0 || leb (a + n) vmem_size

-- A store of `n` bytes that is undefined if one of them lies outside.
abbrev pub store : ℕ → Machine → ℕ → ℕ → Run Machine
store n m a x = if in_vmem n a then ok (record m { vmem = put_bytes n m.vmem a x }) else undefined

abbrev pub load : ℕ → Machine → ℕ → Run ℕ
load n m a = if in_vmem n a then ok (get_bytes n m.vmem a) else undefined
