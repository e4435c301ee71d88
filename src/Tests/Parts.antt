-- ===== src/Tests/Parts.antt =====
-- The theorems on the parts, each at a concrete input.
use weeper_vm.Base.{◌-◌, ◌≡◌, arith, [], ◌∷◌, ok, Returns}
use weeper_vm.Stack.{stack_init}
use weeper_vm.Stack.Client.{push, pop, peek, run, run-eq-replies}
use weeper_vm.Machine.{Machine, vmem_stack_lo}
use weeper_vm.Memory.{write_to_vmem}
use weeper_vm.Memory.Store.{store}
use weeper_vm.Memory.Laws.{write_to_vmem-eq-store}
use weeper_vm.Emulate.Select.{woc_rol, code, select_handler}
use weeper_vm.Emulate.Select.Tree.{select_handler-code}
use weeper_vm.Emulate.Decode.Header.{Spec}
use weeper_vm.Handler.Move.{legacy_top}
use weeper_vm.Handler.Move.Scan.{IsTop, legacy_top-IsTop}
use weeper_vm.Tests.{started, blank}

-- The second pop is of an empty stack, which gives -1.
run-eq-replies_example :
    run (push 7 ∷ push 9 ∷ peek ∷ pop ∷ pop ∷ pop ∷ []) (stack_init blank)
    ≡ ok (0 ∷ 0 ∷ 9 ∷ 9 ∷ 7 ∷ 0xffffffff ∷ [])
run-eq-replies_example = run-eq-replies (push 7 ∷ push 9 ∷ peek ∷ pop ∷ pop ∷ pop ∷ []) blank

write_to_vmem-eq-store_example :
    write_to_vmem started 0x40 0x12345678 3 0x89 ≡ store 4 started 0x40 0x12345678
write_to_vmem-eq-store_example = write_to_vmem-eq-store started 0x40 0x12345678 3 0x89 (omega arith)

abbrev ff_everywhere : Machine
ff_everywhere = record started { vmem = λ a. 0xff }

select_handler-code_example : select_handler 25 ≡ woc_rol
unfolding code
select_handler-code_example = select_handler-code woc_rol

abbrev short_reg : Spec
short_reg = record { t = 1; v = 2; l = 0 }

abbrev int_imm : Spec
int_imm = record { t = 3; v = 3; l = 3 }

legacy_top-IsTop_example : Returns (IsTop started (vmem_stack_lo - 3)) (legacy_top started)
legacy_top-IsTop_example = legacy_top-IsTop started
