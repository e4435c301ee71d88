-- ===== src/Invariant/Write.antt =====
-- Every write keeps the invariant.
use weeper_vm.Base.{
  ℕ, zero, suc, ◌+◌, ◌-◌, arith, ok, Ensures, returns, stuck, bind, anyhow, ltb, leb, bit_and,
  bit_or, ◌==◌, if◌then◌else◌, ◌>>>◌,
}
use weeper_vm.Base.Bits.{or-lt}
use weeper_vm.Machine.{Machine, vmem_size, vregs_count, vmem_set, vreg_set}
use weeper_vm.Memory.{
  pre_v_truncation, vmem_expansion, write_to_vmem_byte, write_to_vmem_short, write_to_vmem_int,
  write_to_vmem_loop, write_to_vmem,
}
use weeper_vm.Memory.Mask.{and-0xff, byte_1, byte_2, byte_3}
use weeper_vm.Operand.{Operand, op_reg, op_mem, calculate_memory_offset}
use weeper_vm.Handler.Write.{write_reg, write_mem, write_back}
use weeper_vm.Invariant.Defs.{IsByte, IsWord, IsWf, branch}
use weeper_vm.Invariant.Read.{operand_byte-IsByte, vreg_at-IsWord, pre_v_truncation-IsWord}

module _ {m : Machine} (wf : IsWf m) where
  pub vmem_set-IsWf : (a x : ℕ) → IsByte x → Ensures IsWf (vmem_set m a x)
  unfolding vmem_set
  vmem_set-IsWf a x h =
      branch (ltb a vmem_size)
        (returns (record {
          code_bytes = wf.code_bytes;
          mem_bytes = λ j. ground (arith, wf.mem_bytes j);
          reg_words = wf.reg_words;
          flag = wf.flag;
          calls = wf.calls;
        }))
        stuck

  pub vreg_set-IsWf : (r x : ℕ) → IsWord x → Ensures IsWf (vreg_set m r x)
  unfolding vreg_set
  vreg_set-IsWf r x h =
      branch (ltb r vregs_count)
        (returns (record {
          code_bytes = wf.code_bytes;
          mem_bytes = wf.mem_bytes;
          reg_words = λ j. ground (arith, wf.reg_words j);
          flag = wf.flag;
          calls = wf.calls;
        }))
        stuck

  byte-IsWf : (a x k : ℕ) → Ensures IsWf (write_to_vmem_byte m a x k)
  unfolding write_to_vmem_byte
  byte-IsWf a x k = vmem_set-IsWf a (bit_and x 0xff) (omega (arith, and-0xff x))

short-IsWf : {m : Machine} → IsWf m → (a x k : ℕ) → Ensures IsWf (write_to_vmem_short m a x k)
unfolding write_to_vmem_short
short-IsWf wf a x k =
    bind (vmem_set-IsWf wf (a + 0 - k) (bit_and x 0xff00 >>> 8) (omega (arith, byte_1 x)))
      λ m1 wf1. vmem_set-IsWf wf1 (a + 1 - k) (bit_and x 0xff) (omega (arith, and-0xff x))

guarded-IsWf :
    {m : Machine}
    → IsWf m
    → (g a x k : ℕ) → IsByte x
    → Ensures IsWf (if leb k g then vmem_set m (a + g - k) x else ok m)
guarded-IsWf wf g a x k h = branch (leb k g) (vmem_set-IsWf wf (a + g - k) x h) (returns wf)

int-IsWf : {m : Machine} → IsWf m → (a x k : ℕ) → Ensures IsWf (write_to_vmem_int m a x k)
unfolding write_to_vmem_int
int-IsWf wf a x k =
    bind (guarded-IsWf wf 0 a (bit_and x 0xff000000 >>> 24) k (omega (arith, byte_3 x))) λ m1 wf1.
      bind (guarded-IsWf wf1 1 a (bit_and x 0xff0000 >>> 16) k (omega (arith, byte_2 x))) λ m2 wf2.
        bind (guarded-IsWf wf2 2 a (bit_and x 0xff00 >>> 8) k (omega (arith, byte_1 x)))
          λ m3 wf3. guarded-IsWf wf3 3 a (bit_and x 0xff) k (omega (arith, and-0xff x))

loop-IsWf :
    (rounds : ℕ) {m : Machine}
    → IsWf m
    → (a x state k : ℕ) → Ensures IsWf (write_to_vmem_loop rounds m a x state k)
unfolding write_to_vmem_loop
loop-IsWf zero wf a x state k = stuck
loop-IsWf (suc rounds) wf a x state k = branch (state == 13) (returns wf) (
    branch (state == 10)
      (bind (byte-IsWf wf a x k) λ m1 wf1. loop-IsWf rounds wf1 a x (state + 3) k)
      (branch (state == 33)
        (bind (short-IsWf wf a x k) λ m1 wf1. loop-IsWf rounds wf1 a x (state - 30) (k + 2))
        (branch (state == 3)
          (bind (int-IsWf wf a x k) λ m1 wf1. loop-IsWf rounds wf1 a x (state + 10) k)
          (loop-IsWf rounds wf a x 13 k))))

module _ {m : Machine} (wf : IsWf m) where
  pub write_to_vmem-IsWf : (a x v trash : ℕ) → Ensures IsWf (write_to_vmem m a x v trash)
  unfolding write_to_vmem
  write_to_vmem-IsWf a x v trash = loop-IsWf 3 wf a x _ 0

  pub write_reg-IsWf : (op : Operand) (v x : ℕ) → IsWord x → Ensures IsWf (write_reg m op v x)
  unfolding write_reg
  write_reg-IsWf op v x hx = bind (operand_byte-IsByte wf op 0) λ d0 _.
      bind (vreg_at-IsWord wf (bit_and d0 0x0f)) λ reg hr.
        vreg_set-IsWf wf (bit_and d0 0x0f) (bit_or (pre_v_truncation reg v) x)
          (or-lt 32 (pre_v_truncation reg v) x (pre_v_truncation-IsWord reg v hr) hx)

  pub write_mem-IsWf : (op : Operand) (e v x trash : ℕ) → Ensures IsWf (write_mem m op e v x trash)
  unfolding write_mem
  write_mem-IsWf op e v x trash =
      bind (anyhow (calculate_memory_offset m op))
        λ a _. bind (anyhow (vmem_expansion m a x e)) λ x' _. write_to_vmem-IsWf a x' v trash

  pub write_back-IsWf :
      (op : Operand) (e v x trash : ℕ) → IsWord x → Ensures IsWf (write_back m op e v x trash)
  unfolding write_back
  write_back-IsWf op e v x trash hx =
      branch (op.t == op_reg) (write_reg-IsWf op v x hx)
        (branch (op.t == op_mem) (write_mem-IsWf op e v x trash) (returns wf))
