-- ===== src/Memory/Words.antt =====
-- Reading back what was stored, and what VMEM_EXPANSION adds to it.
use weeper_vm.Base.{
  ℕ, zero, suc, ◌+◌, ◌/◌, ◌%◌, ◌^◌, ◌≤◌, ◌<◌, ◌≡◌, ◌⊎◌, refl, arith, ok, undefined, Bool, true,
  false, if◌then◌else◌, ◌==◌, ◌∙◌, Run, Returns, gives, ◌>>=◌, zero, fun_ext, bit_or, ◌<<<◌,
}
use weeper_vm.Machine.{Bytes, Machine, vmem_size, update, vmem_at}
use weeper_vm.Memory.{vmem_expansion, write_to_vmem, v_byte, v_short}
use weeper_vm.Memory.Mask.{or_above_8, or_above_16, or_above_24}
use weeper_vm.Memory.Store.{size_of, put_bytes, get_bytes, store}
use weeper_vm.Memory.Laws.{write_to_vmem-eq-store}

-- A store changes no byte outside its range.
pub put_bytes-outside :
    (n : ℕ) (b : Bytes) (a x j : ℕ) → (j < a) ⊎ (a + n ≤ j) → put_bytes n b a x j ≡ b j
put_bytes-outside zero b a x j h = refl
put_bytes-outside (suc n) b a x j h =
    ground (arith, put_bytes-outside n (update b a (x / 256 ^ n % 256)) (a + 1) x j)

-- The bytes just stored stand for the value cut to their number.
pub get_bytes-put_bytes :
    (b : Bytes) (a x v : ℕ)
    → get_bytes (size_of v) (put_bytes (size_of v) b a x) a ≡ x % 256 ^ size_of v
get_bytes-put_bytes b a x zero = omega arith
get_bytes-put_bytes b a x (suc zero) = ground arith
get_bytes-put_bytes b a x (suc (suc zero)) = ground arith
get_bytes-put_bytes b a x (suc (suc (suc zero))) = ground arith
get_bytes-put_bytes b a x (suc (suc (suc (suc v)))) = ground arith

-- The bytes that a store puts depend only on the part of the value that fits in them.
pub put_bytes-cong :
    (b : Bytes) (a x y v : ℕ)
    → x % 256 ^ size_of v ≡ y % 256 ^ size_of v
    → put_bytes (size_of v) b a x ≡ put_bytes (size_of v) b a y
put_bytes-cong b a x y zero h = refl
put_bytes-cong b a x y (suc zero) h = fun_ext λ j. ground arith
put_bytes-cong b a x y (suc (suc zero)) h = fun_ext λ j. ground arith
put_bytes-cong b a x y (suc (suc (suc zero))) h = fun_ext λ j. ground arith
put_bytes-cong b a x y (suc (suc (suc (suc v)))) h = ground arith

-- A store whose bytes all lie inside is defined.
pub store-in :
    (m : Machine) (a x v : ℕ)
    → a + size_of v ≤ vmem_size
    → store (size_of v) m a x ≡ ok (record m { vmem = put_bytes (size_of v) m.vmem a x })
store-in m a x v h = ground arith

-- VMEM_EXPANSION leaves the part of the value that is stored alone.
expansion-mod :
    (m : Machine) (a x v : ℕ) {y : ℕ}
    → vmem_expansion m a x v ≡ ok y
    → y % 256 ^ size_of v ≡ x % 256 ^ size_of v
unfolding vmem_expansion vmem_at
expansion-mod m a x zero h = ground arith
expansion-mod m a x (suc zero) h =
    let b1 = m.vmem (a + 1) in
    let b2 = m.vmem (a + 2) in
    ground (
      arith,
      or_above_8 x b1,
      or_above_16 (bit_or x (b1 <<< 8)) b2,
      or_above_24 (bit_or (bit_or x (b1 <<< 8)) (b2 <<< 16)) (m.vmem (a + 3)),
    )
expansion-mod m a x (suc (suc zero)) h =
    let b2 = m.vmem (a + 2) in
    ground (arith, or_above_16 x b2, or_above_24 (bit_or x (b2 <<< 16)) (m.vmem (a + 3)))
expansion-mod m a x (suc (suc (suc zero))) h = ground arith
expansion-mod m a x (suc (suc (suc (suc v)))) h = ground arith

-- What VMEM_EXPANSION adds to a value is never stored: `writeToVmem` does the same with and
-- without it.
pub write_to_vmem-expansion :
    (m : Machine) (a x v trash : ℕ) {y : ℕ}
    → v < 4
    → vmem_expansion m a x v ≡ ok y
    → write_to_vmem m a y v trash ≡ write_to_vmem m a x v trash
write_to_vmem-expansion m a x v trash {y} h e = rw (
  write_to_vmem-eq-store m a y v trash h,
  write_to_vmem-eq-store m a x v trash h,
  put_bytes-cong m.vmem a y x v (expansion-mod m a x v e),
)

-- VMEM_EXPANSION of a byte reads three bytes beyond it, so at the last three addresses of `vmem`
-- it is undefined.
pub expansion-end :
    (m : Machine) (a x : ℕ) → vmem_size ≤ a + 3 → vmem_expansion m a x v_byte ≡ undefined
unfolding vmem_expansion vmem_at
expansion-end m a x h = ground arith

vmem_at-in : (m : Machine) (a : ℕ) → a < vmem_size → vmem_at m a ≡ ok (m.vmem a)
unfolding vmem_at
vmem_at-in m a h = ground arith

one_of_three :
    (b c : Bool) (x y z : ℕ)
    → (let r = if b then ok x else if c then ok y else ok z in Returns (λ w. r ≡ ok w) r)
one_of_three true c x y z = gives refl
one_of_three false true x y z = gives refl
one_of_three false false x y z = gives refl

-- Where all four bytes lie inside, VMEM_EXPANSION is defined.
expansion-Returns :
    (m : Machine) (a x v : ℕ)
    → a + 4 ≤ vmem_size
    → Returns (λ y. vmem_expansion m a x v ≡ ok y) (vmem_expansion m a x v)
unfolding vmem_expansion
expansion-Returns m a x v h =
    rw
      (
        vmem_at-in m (a + 1) (omega arith),
        vmem_at-in m (a + 2) (omega arith),
        vmem_at-in m (a + 3) (omega arith),
      )
      (one_of_three (v == v_byte) (v == v_short) _ _ _)

-- The end of a handler with a memory destination: where all four bytes lie inside, the value is
-- stored.
pub write_expanded :
    (m : Machine) (a x v trash : ℕ)
    → v < 4
    → a + 4 ≤ vmem_size
    → (vmem_expansion m a x v >>= λ y. write_to_vmem m a y v trash)
      ≡ ok (record m { vmem = put_bytes (size_of v) m.vmem a x })
write_expanded m a x v trash small room = go (expansion-Returns m a x v room)
  where
    stores :
        {y : ℕ}
        → vmem_expansion m a x v ≡ ok y
        → write_to_vmem m a y v trash ≡ ok (record m { vmem = put_bytes (size_of v) m.vmem a x })
    stores e =
        write_to_vmem-expansion m a x v trash small e
        ∙ write_to_vmem-eq-store m a x v trash small
        ∙ store-in m a x v (ground arith)

    go :
        {r : Run ℕ}
        → Returns (λ y. vmem_expansion m a x v ≡ ok y) r
        → (r >>= λ y. write_to_vmem m a y v trash)
          ≡ ok (record m { vmem = put_bytes (size_of v) m.vmem a x })
    go (gives e) = stores e
