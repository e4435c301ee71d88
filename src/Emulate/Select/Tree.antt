-- ===== src/Emulate/Select/Tree.antt =====
-- The tree of tests against the numbering of the enumeration.
use weeper_vm.Base.{◌≡◌, refl}
use weeper_vm.Emulate.Select.{Opcode, woc_mov, code, select_handler}

-- The tree sends the number of every opcode to the handler of that opcode.
pub select_handler-code : (o : Opcode) → select_handler (code o) ≡ o
unfolding select_handler code
select_handler-code woc_mov = refl
select_handler-code _ = refl
