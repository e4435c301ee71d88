-- ===== src/Operand.antt =====
-- VM/src/emulate.c: `calculateMemoryOffset` and the `getOperandData` functions, which read the
-- value of an operand.
pub mod Select
pub mod Value
use weeper_vm.Base.{
  ℕ, ◌+◌, ◌%◌, bit_and, bit_or, bit_xor, Run, ok, undefined, ◌>>=◌, u32, sub32, ◌<<<◌, ◌>>>◌, not,
  ◌==◌, if◌then◌else◌,
}
use weeper_vm.Machine.{Machine, vcode_at, vmem_at, vreg_at}
use weeper_vm.Memory.{v_byte, v_short, v_int, post_v_truncation}

-- WeeperOp_t
abbrev pub op_none : ℕ
op_none = 0

abbrev pub op_reg : ℕ
op_reg = 1

abbrev pub op_mem : ℕ
op_mem = 2

abbrev pub op_imm : ℕ
op_imm = 3

-- WeeperOperand. `at` is where in `vcode` the pointer `data` points.
pub record Operand : Type 0 where
  pub t : ℕ
  pub v : ℕ
  pub l : ℕ
  pub at : ℕ

module _ (m : Machine) where
  -- `op->data[i]`
  unfoldable pub operand_byte : Operand → ℕ → Run ℕ
  operand_byte op i = vcode_at m (op.at + i)

  -- A base register and a register for the displacement.
  unfoldable pub register_offset : Operand → Run ℕ
  register_offset op = do
    d0 ← operand_byte op 0
    d1 ← operand_byte op 1
    base ← vreg_at m (bit_or (bit_and d0 0x03 <<< 2) (bit_and d1 0xc0 >>> 6))
    disp ← vreg_at m (bit_and d1 0x3c >>> 2)
    let base' = post_v_truncation base (bit_and d0 0x30 >>> 4)
    let disp' = post_v_truncation disp (bit_and d0 0x0c >>> 2)
    ok (u32 (base' + disp'))

  -- The displacement behind the header byte. At a length of 1 C reads a variable never set.
  unfoldable pub immediate_disp : Operand → Run ℕ
  immediate_disp op =
      if op.l == 2
      then operand_byte op 1
      else if op.l == 3
      then (do b1 ← operand_byte op 1; b2 ← operand_byte op 2; ok (bit_or (b1 <<< 8) b2))
      else if op.l == 4
      then (do
        b1 ← operand_byte op 1
        b2 ← operand_byte op 2
        b3 ← operand_byte op 3
        ok (bit_or (bit_or (b1 <<< 16) (b2 <<< 8)) b3))
      else undefined

  -- A base that is a register or 0, and an immediate displacement.
  unfoldable pub immediate_offset : Operand → Run ℕ
  immediate_offset op = do
    d0 ← operand_byte op 0
    disp ← immediate_disp op
    base ←
        if not (bit_and d0 0b10000000 == 0)
        then (do r ← vreg_at m (bit_and d0 0x0f); ok (post_v_truncation r (bit_and d0 0x30 >>> 4)))
        else ok 0
    ok (u32 (base + disp))

  -- `calculateMemoryOffset`
  unfoldable pub calculate_memory_offset : Operand → Run ℕ
  calculate_memory_offset op = do
    d0 ← operand_byte op 0
    if not (bit_and d0 0b01000000 == 0) then register_offset op else immediate_offset op

  -- `(vmem[a] << 8) | vmem[a + 1]`, and the four bytes likewise. The sum `a + 1` of `uint32_t` could
  -- only wrap where `vmem[a]` is out of range already.
  unfoldable pub vmem_short : ℕ → Run ℕ
  vmem_short a = do b0 ← vmem_at m a; b1 ← vmem_at m (a + 1); ok (bit_or (b0 <<< 8) b1)

  unfoldable pub vmem_int : ℕ → Run ℕ
  vmem_int a = do
    b0 ← vmem_at m a
    b1 ← vmem_at m (a + 1)
    b2 ← vmem_at m (a + 2)
    b3 ← vmem_at m (a + 3)
    ok (bit_or (bit_or (bit_or (b0 <<< 24) (b1 <<< 16)) (b2 <<< 8)) b3)

  -- The value of size `v` at the address `a`, as the handlers read it: at the size 0 four bytes.
  unfoldable pub vmem_value : ℕ → ℕ → Run ℕ
  vmem_value v a =
      if v == v_byte then vmem_at m a else if v == v_short then vmem_short a else vmem_int a

  unfoldable pub get_operand_data_reg : Operand → Run ℕ
  get_operand_data_reg op = do
    d0 ← operand_byte op 0
    x ← vreg_at m (bit_and d0 0x0f)
    ok (post_v_truncation x op.v)

  -- The bytes of the immediate before its truncation.
  unfoldable pub immediate_word : Operand → Run ℕ
  immediate_word op =
      if op.l == 1
      then operand_byte op 0
      else if op.l == 2
      then (do b0 ← operand_byte op 0; b1 ← operand_byte op 1; ok (bit_or (b0 <<< 8) b1))
      else (do
        b0 ← operand_byte op 0
        b1 ← operand_byte op 1
        b2 ← operand_byte op 2
        b3 ← operand_byte op 3
        let x = bit_or (bit_or (bit_or (b0 <<< 24) (b1 <<< 16)) (b2 <<< 8)) b3
        ok (if op.l == 3 then bit_and x 0xffffff00 >>> 8 else x))

  unfoldable pub get_operand_data_imm : Operand → Run ℕ
  get_operand_data_imm op = do x ← immediate_word op; ok (post_v_truncation x op.v)

  unfoldable pub get_operand_data_mem : Operand → Run ℕ
  get_operand_data_mem op = do
    a ← calculate_memory_offset op
    if op.v == v_byte
        then vmem_at m a
        else if op.v == v_short
        then vmem_short a
        else if op.v == v_int
        then vmem_int a
        else ok 0

-- `((junk + op->t) & 0xFF) % 4` with its junk: which reader is called.
unfoldable pub reader_index : ℕ → ℕ → ℕ
reader_index t trash =
    let junk = u32 (sub32 (bit_xor t 0x55 + trash) 0x7f <<< 3) in bit_and (u32 (junk + t)) 0xff % 4

-- `getOperandData`. Entry 0 of the table is NULL.
unfoldable pub get_operand_data : Machine → ℕ → Operand → Run ℕ
get_operand_data m trash op =
    let i = reader_index op.t trash in
    if i == 1
    then get_operand_data_reg m op
    else if i == 2
    then get_operand_data_mem m op
    else if i == 3
    then get_operand_data_imm m op
    else undefined
