-- ===== src/Emulate/Select.antt =====
-- VM/lib/emulate.h: WeeperOpcode, and the tree of tests by which `dispatch` chooses a handler.
pub mod Tree
use weeper_vm.Base.{ℕ, ◌*◌, ◌%◌, bit_and, ◌==◌, ltb, if◌then◌else◌}

pub data Opcode : Type 0 where
  woc_mov woc_lea woc_put woc_get : Opcode
  woc_add woc_sub woc_mul woc_div woc_mod : Opcode
  woc_cmp woc_jmp woc_call woc_ret woc_exit : Opcode
  woc_and woc_or woc_xor woc_shl woc_shr woc_not : Opcode
  woc_syscall woc_swap woc_rev woc_packhi woc_packlo woc_rol woc_ror woc_fork : Opcode

-- The number of an enumerator.
unfoldable pub code : Opcode → ℕ
code woc_mov = 0
code woc_lea = 1
code woc_put = 2
code woc_get = 3
code woc_add = 4
code woc_sub = 5
code woc_mul = 6
code woc_div = 7
code woc_mod = 8
code woc_cmp = 9
code woc_jmp = 10
code woc_call = 11
code woc_ret = 12
code woc_exit = 13
code woc_and = 14
code woc_or = 15
code woc_xor = 16
code woc_shl = 17
code woc_shr = 18
code woc_not = 19
code woc_syscall = 20
code woc_swap = 21
code woc_rev = 22
code woc_packhi = 23
code woc_packlo = 24
code woc_rol = 25
code woc_ror = 26
code woc_fork = 27

-- `opcode % 6 == 0`
select_six : ℕ → Opcode
select_six n =
    if n * 6 == 0
    then woc_mov
    else if ltb n 10
    then woc_mul
    else if ltb 20 n
    then woc_packlo
    else if n % 9 == 0
    then woc_shr
    else woc_ret

-- `opcode % 3 == 0`
select_three : ℕ → Opcode
select_three n =
    if ltb n 10
    then (if bit_and n 3 == 3 then woc_get else woc_cmp)
    else if n % 5 == 0
    then woc_or
    else if n % 7 == 0
    then woc_swap
    else woc_fork

-- `opcode % 2 == 0`
select_two : ℕ → Opcode
select_two n =
    if ltb 10 n
    then (if ltb n 20
        then (if n % 7 == 0 then woc_and else woc_xor)
        else if ltb 20 n
        then (if n % 11 == 0 then woc_rev else woc_ror)
        else woc_syscall)
    else if ltb n 10
    then (if bit_and n 7 == 0 then woc_mod else if bit_and n 3 == 0 then woc_add else woc_put)
    else woc_jmp

select_one : ℕ → Opcode
select_one n =
    if bit_and n 3 == 1
    then (if ltb 20 n
        then woc_rol
        else if ltb 10 n
        then (if ltb 50 (n * 3) then woc_shl else woc_exit)
        else if n % 5 == 0
        then woc_sub
        else woc_lea)
    else (if ltb 20 n
        then woc_packhi
        else if ltb n 10
        then woc_div
        else if n % 11 == 0
        then woc_call
        else woc_not)

unfoldable pub select_handler : ℕ → Opcode
unfolding select_six select_three select_two select_one
select_handler n =
    if n % 6 == 0
    then select_six n
    else if n % 3 == 0
    then select_three n
    else if n % 2 == 0
    then select_two n
    else select_one n
