-- ===== src/Invariant/Read.antt =====
-- Every value that is read fits its type.
use weeper_vm.Base.{
  ℕ, zero, suc, ◌+◌, ◌*◌, ◌^◌, ◌<◌, List, [], ◌∷◌, arith, Ensures, returns, stuck, bind, mono,
  anyhow, All, get_elem?, ltb, bit_and, bit_or, ◌==◌, lift, ◌<<<◌,
}
use weeper_vm.Base.Bits.{or-lt}
use weeper_vm.Machine.{Machine, vmem_size, vregs_count, vcode_at, vmem_at, vreg_at}
use weeper_vm.Memory.{post_v_truncation, pre_v_truncation, v_byte, v_short, v_int}
use weeper_vm.Memory.Mask.{and-0xff, and-0xffff, and-0xffffffff, and-0xffffff00, and-0xffff0000}
use weeper_vm.Operand.{
  Operand, operand_byte, calculate_memory_offset, vmem_short, vmem_int, vmem_value,
  get_operand_data_reg, immediate_word, get_operand_data_imm, get_operand_data_mem, reader_index,
  get_operand_data,
}
use weeper_vm.Invariant.Defs.{IsByte, IsWord, IsWf, branch}

get_elem?-IsByte : (xs : List ℕ) (i : ℕ) → All IsByte xs → Ensures IsByte (lift (get_elem? xs i))
get_elem?-IsByte [] i h = stuck
get_elem?-IsByte (x ∷ xs) zero h = returns h.0
get_elem?-IsByte (x ∷ xs) (suc i) h = get_elem?-IsByte xs i h.1

pub post_v_truncation-IsWord : (x v : ℕ) → IsWord x → IsWord (post_v_truncation x v)
unfolding post_v_truncation
post_v_truncation-IsWord x v h = ground (arith, and-0xff x, and-0xffff x, and-0xffffffff x)

pub pre_v_truncation-IsWord : (x v : ℕ) → IsWord x → IsWord (pre_v_truncation x v)
unfolding pre_v_truncation
pre_v_truncation-IsWord x v h = ground (arith, and-0xffffff00 x h, and-0xffff0000 x h)

-- Up to four bytes, each at its place.
pub short-lt : (b0 b1 : ℕ) → IsByte b0 → IsByte b1 → bit_or (b0 <<< 8) b1 < 2 ^ 16
short-lt b0 b1 h0 h1 = or-lt 16 (b0 * 256) b1 (omega arith) (omega arith)

pub three_bytes-lt :
    (b0 b1 b2 : ℕ)
    → IsByte b0
    → IsByte b1
    → IsByte b2
    → bit_or (bit_or (b0 <<< 16) (b1 <<< 8)) b2 < 2 ^ 24
three_bytes-lt b0 b1 b2 h0 h1 h2 =
    or-lt 24 (bit_or (b0 <<< 16) (b1 <<< 8)) b2
      (or-lt 24 (b0 * 65536) (b1 * 256) (omega arith) (omega arith)) (omega arith)

four_bytes-IsWord :
    (b0 b1 b2 b3 : ℕ)
    → IsByte b0
    → IsByte b1
    → IsByte b2
    → IsByte b3
    → IsWord (bit_or (bit_or (bit_or (b0 <<< 24) (b1 <<< 16)) (b2 <<< 8)) b3)
four_bytes-IsWord b0 b1 b2 b3 h0 h1 h2 h3 =
    or-lt 32 (bit_or (bit_or (b0 <<< 24) (b1 <<< 16)) (b2 <<< 8)) b3
      (or-lt 32 (bit_or (b0 <<< 24) (b1 <<< 16)) (b2 * 256)
        (or-lt 32 (b0 * 16777216) (b1 * 65536) (omega arith) (omega arith)) (omega arith))
      (omega arith)

module _ {m : Machine} (wf : IsWf m) where
  pub vcode_at-IsByte : (a : ℕ) → Ensures IsByte (vcode_at m a)
  unfolding vcode_at
  vcode_at-IsByte a = get_elem?-IsByte m.vcode a wf.code_bytes

  pub vmem_at-IsByte : (a : ℕ) → Ensures IsByte (vmem_at m a)
  unfolding vmem_at
  vmem_at-IsByte a = branch (ltb a vmem_size) (returns (wf.mem_bytes a)) stuck

  pub vreg_at-IsWord : (r : ℕ) → Ensures IsWord (vreg_at m r)
  unfolding vreg_at
  vreg_at-IsWord r = branch (ltb r vregs_count) (returns (wf.reg_words r)) stuck

  pub operand_byte-IsByte : (op : Operand) (i : ℕ) → Ensures IsByte (operand_byte m op i)
  unfolding operand_byte
  operand_byte-IsByte op i = vcode_at-IsByte (op.at + i)

  pub vmem_short-IsWord : (a : ℕ) → Ensures IsWord (vmem_short m a)
  unfolding vmem_short
  vmem_short-IsWord a =
      bind (vmem_at-IsByte a) λ b0 h0.
        bind (vmem_at-IsByte (a + 1)) λ b1 h1. returns (omega (arith, short-lt b0 b1 h0 h1))

  pub vmem_int-IsWord : (a : ℕ) → Ensures IsWord (vmem_int m a)
  unfolding vmem_int
  vmem_int-IsWord a = bind (vmem_at-IsByte a) λ b0 h0. bind (vmem_at-IsByte (a + 1)) λ b1 h1.
      bind (vmem_at-IsByte (a + 2)) λ b2 h2.
        bind (vmem_at-IsByte (a + 3)) λ b3 h3. returns (four_bytes-IsWord b0 b1 b2 b3 h0 h1 h2 h3)

  pub vmem_value-IsWord : (v a : ℕ) → Ensures IsWord (vmem_value m v a)
  unfolding vmem_value
  vmem_value-IsWord v a =
      branch (v == v_byte) (mono (vmem_at-IsByte a) λ b h. omega arith)
        (branch (v == v_short) (vmem_short-IsWord a) (vmem_int-IsWord a))

  reg-IsWord : (op : Operand) → Ensures IsWord (get_operand_data_reg m op)
  unfolding get_operand_data_reg
  reg-IsWord op = bind (operand_byte-IsByte op 0) λ d0 _.
      bind (vreg_at-IsWord (bit_and d0 0x0f)) λ x hx. returns (post_v_truncation-IsWord x op.v hx)

  immediate_word-IsWord : (op : Operand) → Ensures IsWord (immediate_word m op)
  unfolding immediate_word
  immediate_word-IsWord op =
      branch (op.l == 1) (mono (operand_byte-IsByte op 0) λ b h. omega arith) (
        branch (op.l == 2)
          (bind (operand_byte-IsByte op 0) λ b0 h0.
            bind (operand_byte-IsByte op 1) λ b1 h1. returns (omega (arith, short-lt b0 b1 h0 h1)))
          (bind (operand_byte-IsByte op 0) λ b0 h0. bind (operand_byte-IsByte op 1) λ b1 h1.
            bind (operand_byte-IsByte op 2) λ b2 h2. bind (operand_byte-IsByte op 3) λ b3 h3.
              let x = bit_or (bit_or (bit_or (b0 <<< 24) (b1 <<< 16)) (b2 <<< 8)) b3 in
              returns
                (ground (arith, four_bytes-IsWord b0 b1 b2 b3 h0 h1 h2 h3, and-0xffffff00 x))))

  imm-IsWord : (op : Operand) → Ensures IsWord (get_operand_data_imm m op)
  unfolding get_operand_data_imm
  imm-IsWord op =
      bind (immediate_word-IsWord op) λ x hx. returns (post_v_truncation-IsWord x op.v hx)

  mem-IsWord : (op : Operand) → Ensures IsWord (get_operand_data_mem m op)
  unfolding get_operand_data_mem
  mem-IsWord op = bind (anyhow (calculate_memory_offset m op)) λ a _.
      branch (op.v == v_byte) (mono (vmem_at-IsByte a) λ b h. omega arith) (
        branch (op.v == v_short) (vmem_short-IsWord a)
          (branch (op.v == v_int) (vmem_int-IsWord a) (returns (omega arith))))

  -- In a well-formed state every operand that is read is a word of 32 bits.
  pub get_operand_data-IsWord :
      (trash : ℕ) (op : Operand) → Ensures IsWord (get_operand_data m trash op)
  unfolding get_operand_data
  get_operand_data-IsWord trash op = branch (reader_index op.t trash == 1) (reg-IsWord op) (
      branch (reader_index op.t trash == 2) (mem-IsWord op)
        (branch (reader_index op.t trash == 3) (imm-IsWord op) stuck))
