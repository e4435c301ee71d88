-- ===== src/Operand/Select.antt =====
-- The junk of `getOperandData` has no effect.
use weeper_vm.Base.{
  ℕ, ◌+◌, ◌<◌, ◌≡◌, arith, Run, u32, sub32, bit_xor, ◌<<<◌, ◌==◌, undefined, if◌then◌else◌,
}
use weeper_vm.Machine.{Machine}
use weeper_vm.Memory.Mask.{and-0xff}
use weeper_vm.Operand.{
  Operand, op_reg, op_mem, op_imm, reader_index, get_operand_data, get_operand_data_reg,
  get_operand_data_mem, get_operand_data_imm,
}

pub reader_index-eq : (t trash : ℕ) → t < 4 → reader_index t trash ≡ t
unfolding reader_index
reader_index-eq t trash h =
    let junk = u32 (sub32 (bit_xor t 0x55 + trash) 0x7f <<< 3) in
    omega (arith, and-0xff (u32 (junk + t)))

-- The reader that the type of an operand names.
abbrev pub operand_value : Machine → Operand → Run ℕ
operand_value m op =
    if op.t == op_reg
    then get_operand_data_reg m op
    else if op.t == op_mem
    then get_operand_data_mem m op
    else if op.t == op_imm
    then get_operand_data_imm m op
    else undefined

-- For every junk argument, `getOperandData` calls the reader for the operand's type: of registers
-- at 1, of memory at 2, of immediates at 3; at the type 0 it calls through a null entry, which is
-- undefined.
pub get_operand_data-eq-value :
    (m : Machine) (trash : ℕ) (op : Operand)
    → op.t < 4
    → get_operand_data m trash op ≡ operand_value m op
unfolding get_operand_data
get_operand_data-eq-value m trash op h = rw (reader_index-eq op.t trash h)
