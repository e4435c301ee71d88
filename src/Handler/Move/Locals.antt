-- ===== src/Handler/Move/Locals.antt =====
-- PUT and GET: local variables at hashed offsets.
use weeper_vm.Base.{
  ℕ, zero, suc, ◌+◌, ◌-◌, ◌%◌, ◌^◌, ◌≤◌, ◌<◌, ◌≡◌, ◌⊎◌, inr, refl, arith, List, Run, ok,
  ok-injective, subst, sym, ◌/◌, ◌>>=◌, Returns, gives, ◌==◌, if◌then◌else◌, ◌∙◌, ap,
}
use weeper_vm.Stack.{minus_one}
use weeper_vm.Stack.Bounded
use weeper_vm.Stack.Chain.{Holds}
use weeper_vm.Stack.Refine.{stack_peek-Agrees}
use weeper_vm.Machine.{Machine, Bytes, vmem_stack_lo, vmem_local_lo, update}
use weeper_vm.Memory.Mask.{and-0xffff}
use weeper_vm.Memory.Store.{size_of, put_bytes, get_bytes}
use weeper_vm.Memory.Laws.{write_to_vmem-eq-store}
use weeper_vm.Operand.Value.{vmem_value-get_bytes}
use weeper_vm.Memory.Words.{store-in, put_bytes-outside, get_bytes-put_bytes}
use weeper_vm.Operand.{Operand, get_operand_data}
use weeper_vm.Handler.Write.{write_back}
use weeper_vm.Handler.Move.{fnv1a_hash, local_offset, legacy_top, handle_put, handle_get}
use weeper_vm.Handler.Move.Scan.{IsTop, legacy_top-IsTop}
use weeper_vm.Handler.Arith.Reg.{IsSize}

pub fnv1a_hash-lt : (base id : ℕ) → fnv1a_hash base id < 65536
unfolding fnv1a_hash
fnv1a_hash-lt base id = omega (arith, and-0xffff _)

-- The scan returns, so that a step behind it goes on.
past_scan {ℓ} : {A : Type ℓ} (m : Machine) (r : Run A) → (legacy_top m >>= λ _. r) ≡ r
past_scan {A} m r = go (legacy_top-IsTop m)
  where
    go : {s : Run ℕ} → Returns (IsTop m (vmem_stack_lo - 3)) s → (s >>= λ _. r) ≡ r
    go (gives t) = refl

-- Where a variable lies, as a number: the hash of the last return address, or of 0 at the top
-- level, and the identifier.
abbrev pub local_address : List ℕ → ℕ → ℕ
local_address xs id =
    let key = Bounded.peek xs in fnv1a_hash (if key == minus_one then 0 else key) id + vmem_local_lo

local_offset-eq :
    (m : Machine) {xs : List ℕ} (id : ℕ)
    → Holds m.call_stack xs
    → local_offset m id ≡ ok (local_address xs id)
unfolding local_offset
local_offset-eq m id h = rw (stack_peek-Agrees h)

local_address-lt : (xs : List ℕ) (id : ℕ) → local_address xs id < 65536
local_address-lt xs id =
    let key = Bounded.peek xs in
    omega (arith, fnv1a_hash-lt (if key == minus_one then 0 else key) id)

size_of-le : (v : ℕ) → size_of v ≤ 4
size_of-le v = ground arith

put_bytes-lt :
    (n : ℕ) (b : Bytes) (a x : ℕ) → ((j : ℕ) → b j < 256) → (j : ℕ) → put_bytes n b a x j < 256
put_bytes-lt zero b a x h j = h j
put_bytes-lt (suc n) b a x h j =
    put_bytes-lt n (update b a (x / 256 ^ n % 256)) (a + 1) x (λ i. ground (arith, h i)) j

-- PUT on a state whose call stack holds `xs`: the variable goes to its address in the first 64 KiB,
-- at the size of the value, and nothing else changes; a variable of four bytes at the end of that
-- region may reach three bytes into the region behind it, and no further.
pub handle_put-store :
    (m : Machine) (p1 p2 : Operand) (xs : List ℕ) (id x : ℕ)
    → Holds m.call_stack xs
    → p2.v < 4
    → get_operand_data m 0x9a p1 ≡ ok id
    → get_operand_data m 0x20 p2 ≡ ok x
    → (let a = local_address xs id in
        let mem = put_bytes (size_of p2.v) m.vmem a x in
        (handle_put m p1 p2 ≡ ok (record m { vmem = mem }))
        × ((j : ℕ) → (j < a) ⊎ (a + size_of p2.v ≤ j) → mem j ≡ m.vmem j)
        × ((j : ℕ) → 0x10003 ≤ j → mem j ≡ m.vmem j))
unfolding handle_put
handle_put-store m p1 p2 xs id x held small eid ex =
    let a = local_address xs id in
    let near : a < 65536 = local_address-lt xs id in
    let le : size_of p2.v ≤ 4 = size_of-le p2.v in
    (
      rw eid (
          past_scan m _
          ∙ rw (local_offset-eq m id held, ex, write_to_vmem-eq-store m a x p2.v 0x89 small)
              (store-in m a x p2.v (omega (arith, near, le)))),
      λ j h. put_bytes-outside (size_of p2.v) m.vmem a x j h,
      λ j h. put_bytes-outside (size_of p2.v) m.vmem a x j (inr (omega (arith, near, le))),
    )

-- With bytes in memory, GET of the variable that a PUT left, in the same call and at the same of the
-- three sizes, gives its destination the value cut to that size.
pub handle_get-put :
    (m : Machine) (p1 p2 g1 g2 : Operand) (xs : List ℕ) (id x : ℕ) {m' : Machine}
    → ((a : ℕ) → m.vmem a < 256)
    → Holds m.call_stack xs
    → IsSize p2.v
    → g2.v ≡ p2.v
    → get_operand_data m 0x9a p1 ≡ ok id
    → get_operand_data m 0x20 p2 ≡ ok x
    → handle_put m p1 p2 ≡ ok m'
    → get_operand_data m' 0x9a g2 ≡ ok id
    → handle_get m' g1 g2 ≡ write_back m' g1 g1.v g1.v (x % 256 ^ size_of p2.v) 0x9a
unfolding handle_get
handle_get-put m p1 p2 g1 g2 xs id x {m'} bytes held size same eid ex put again =
    let a = local_address xs id in
    let mem = put_bytes (size_of p2.v) m.vmem a x in
    let (left, _, _) = handle_put-store m p1 p2 xs id x held (omega arith) eid ex in
    let after : record m { vmem = mem } ≡ m' = ok-injective (sym left ∙ put) in
    let held' : Holds m'.call_stack xs = subst (λ n. Holds n.call_stack xs) after held in
    let cut : get_bytes (size_of p2.v) m'.vmem a ≡ x % 256 ^ size_of p2.v =
      ap (λ n. get_bytes (size_of p2.v) n.vmem a) (sym after)
      ∙ get_bytes-put_bytes m.vmem a x p2.v in
    let bytes' : (j : ℕ) → m'.vmem j < 256 =
      subst (λ n. (j : ℕ) → n.vmem j < 256) after (put_bytes-lt (size_of p2.v) m.vmem a x bytes) in
    rw again (
      past_scan m' _
      ∙ rw
          (
            local_offset-eq m' id held',
            same,
            vmem_value-get_bytes m' bytes' p2.v a size (omega (arith, local_address-lt xs id)),
            cut,
          )
          refl)
