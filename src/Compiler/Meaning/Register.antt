-- ===== src/Compiler/Meaning/Register.antt =====
-- Registers.
use weeper_vm.Base.{ℕ, ◌%◌, ◌<◌, ◌≡◌, ap, arith, List, ◌∷◌, ok}
use weeper_vm.Base.Bits.{and_low}
use weeper_vm.Machine.{Machine, vreg_at}
use weeper_vm.Operand.{Operand, get_operand_data_reg}
use weeper_vm.Handler.Arith.Reg.{IsSize}
use weeper_vm.Compiler.Bytes.{BytesAt, operand_byte-at}
use weeper_vm.Compiler.Meaning.{part}
use weeper_vm.Compiler.Meaning.Immediate.{post_v_truncation-eq}

pub vreg_at-ok : (m : Machine) (r : ℕ) → r < 16 → vreg_at m r ≡ ok (m.vregs r)
unfolding vreg_at
vreg_at-ok m r h = ground arith

-- A register is read as its part of the size.
pub get_operand_data_reg-at :
    (m : Machine) (op : Operand) (r : ℕ) (rest : List ℕ)
    → IsSize op.v
    → r < 16
    → BytesAt m op.at (r ∷ rest)
    → get_operand_data_reg m op ≡ ok (part m op.v r)
unfolding get_operand_data_reg
get_operand_data_reg-at m op r rest size lt h =
    rw
      (
        operand_byte-at m op (r ∷ rest) 0 h (omega arith),
        and_low 4 r,
        vreg_at-ok m (r % 16) (omega arith),
      )
      (ap ok (ground (arith, post_v_truncation-eq (m.vregs r) op.v size)))
