-- ===== src/Memory/Laws.antt =====
-- `writeToVmem` against the reference.
use weeper_vm.Base.{
  ℕ, zero, suc, ◌+◌, ◌≤◌, ◌<◌, ◌≡◌, refl, arith, Run, ok, exited, undefined, ◌>>=◌, inl, inr,
  Bool-cases, leb, ◌∙◌, fun_ext,
}
use weeper_vm.Machine.{Bytes, Machine, vmem_size, vmem_set}
use weeper_vm.Memory.{
  write_to_vmem_byte, write_to_vmem_short, write_to_vmem_int, write_to_vmem_loop, write_to_vmem,
}
use weeper_vm.Memory.Mask.{and-0xff, byte_1, byte_2, byte_3, writer_index-eq}
use weeper_vm.Memory.Store.{size_of, put_bytes, store}

-- Each writer at the `adj` with which the loop calls it.
byte-store : (m : Machine) (a x k : ℕ) → write_to_vmem_byte m a x k ≡ store 1 m a x
unfolding write_to_vmem_byte vmem_set
byte-store m a x k = ground (arith, and-0xff x)

short-store : (m : Machine) (a x : ℕ) → write_to_vmem_short m a x 0 ≡ store 2 m a x
unfolding write_to_vmem_short vmem_set
short-store m a x = ground (arith, and-0xff x, byte_1 x)

-- After the two bytes are written, the last two writes of `writeToVmem_int` write them again.
put_again : (b : Bytes) (a x : ℕ) → put_bytes 2 (put_bytes 2 b a x) a x ≡ put_bytes 2 b a x
put_again b a x = fun_ext λ j. ground arith

short_again :
    (m : Machine) (a x : ℕ)
    → a + 2 ≤ vmem_size
    → (let m' : Machine = record m { vmem = put_bytes 2 m.vmem a x } in
        write_to_vmem_int m' a x 2 ≡ ok m')
unfolding write_to_vmem_int vmem_set
short_again m a x h = ground (arith, and-0xff x, byte_1 x, put_again m.vmem a x)

int-store : (m : Machine) (a x : ℕ) → write_to_vmem_int m a x 0 ≡ store 4 m a x
unfolding write_to_vmem_int vmem_set
int-store m a x = ground (arith, and-0xff x, byte_1 x, byte_2 x, byte_3 x)

bind-id : (r : Run Machine) → (r >>= ok) ≡ r
bind-id (ok m) = refl
bind-id (exited c) = refl
bind-id undefined = refl

loop-byte : (m : Machine) (a x : ℕ) → write_to_vmem_loop 3 m a x 10 0 ≡ store 1 m a x
unfolding write_to_vmem_loop
loop-byte m a x = bind-id (write_to_vmem_byte m a x 0) ∙ byte-store m a x 0

loop-int : (m : Machine) (a x : ℕ) → write_to_vmem_loop 3 m a x 3 0 ≡ store 4 m a x
unfolding write_to_vmem_loop
loop-int m a x = bind-id (write_to_vmem_int m a x 0) ∙ int-store m a x

-- The size 2 runs the writer of two bytes, and then the rest of the writer of four.
loop-short : (m : Machine) (a x : ℕ) → write_to_vmem_loop 3 m a x 33 0 ≡ store 2 m a x
unfolding write_to_vmem_loop
loop-short m a x = elim (Bool-cases (leb (a + 2) vmem_size)) [
  | inl e ↦
      rw (short-store m a x, e)
        (bind-id (write_to_vmem_int (record m { vmem = put_bytes 2 m.vmem a x }) a x 2)
          ∙ short_again m a x (ground arith))
  | inr e ↦ rw (short-store m a x, e)
]

-- Whatever the junk argument, `writeToVmem` ends, and stores exactly the 1, 2 or 4 low bytes of `x`
-- that the size `v` names, the highest first; it is undefined if one of them lies outside `vmem`.
-- At the size 0 it stores nothing.
pub write_to_vmem-eq-store :
    (m : Machine) (a x v trash : ℕ) → v < 4 → write_to_vmem m a x v trash ≡ store (size_of v) m a x
unfolding write_to_vmem
write_to_vmem-eq-store m a x zero trash h =
    rw (writer_index-eq 0 trash h) (unfold write_to_vmem_loop in refl)
write_to_vmem-eq-store m a x (suc zero) trash h = rw (writer_index-eq 1 trash h) (loop-byte m a x)
write_to_vmem-eq-store m a x (suc (suc zero)) trash h =
    rw (writer_index-eq 2 trash h) (loop-short m a x)
write_to_vmem-eq-store m a x (suc (suc (suc zero))) trash h =
    rw (writer_index-eq 3 trash h) (loop-int m a x)
write_to_vmem-eq-store m a x (suc (suc (suc (suc v)))) trash h = absurd (omega arith)
