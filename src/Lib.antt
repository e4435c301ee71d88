-- ===== src/Lib.antt =====
-- WeeperVM: the virtual machine of the WeeperVM challenge, and the part of its compiler that it has
-- to agree with.
--
-- The program. VM/WeeperVM.c maps a megabyte of memory (`vmem`), loads the virtual code from the
-- end of its own file (`vcode`), and calls `emulate` of VM/src/emulate.c. A round of `emulate`
-- fetches a header of three bytes, decodes an opcode and two operands, and dispatches to one of 28
-- handlers, which read operands through `getOperandData`, write memory through `writeToVmem`, and
-- keep return addresses on the stack of VM/src/stack.c. A handler returns a jump
-- destination, or the next address stands in three bytes behind the operands.
-- Compiler/WeeperVM_compile.py packs the instructions, shuffles them, and writes them with their
-- encrypted length behind. The system calls go through the functions of VM/src/syscall.c.
--
-- The files.
--   Base        words of 32 bits over the native numbers, lists, the outcome of a computation
--               (Base/Outcome), the laws of the bit operations (Base/Bits), tables by evaluation.
--   Stack       VM/lib/stack.h and VM/src/stack.c: stack_init, stack_push, stack_pop, stack_peek.
--               Stack/Bounded is the list that it promises, Stack/Chain the links, Stack/Refine and
--               Stack/Init one operation each, Stack/Client sequences of calls.
--   Machine     the globals and the WeeperContext of VM/lib/emulate.h.
--   Memory      the macros and writeToVmem of VM/src/emulate.c, against the stores of Memory/Store.
--   Operand     calculateMemoryOffset and getOperandData.
--   Handler     the handlers: Move (MOV, LEA, PUT, GET), Arith (ADD to NOT), Control (CMP, JMP,
--               CALL, RET, EXIT), Special (SWAP to ROR), Sys (SYSCALL, FORK, in Sys/Numbers the
--               virtual numbers, and in Sys/Clone the arguments of CLONE3), and in Write the
--               destinations that they share.
--   Emulate     dispatch and emulate; Emulate/Select the tree of tests, Emulate/Decode fetch and
--               decode, Emulate/Decode/Header the compiler's header.
--   Invariant   the well-formed states, and that each handler and each round keeps them;
--               Invariant/Frame the parts of the state that each instruction may change.
--   Compiler    the operands and instructions of Compiler/WeeperVM_compile.py: the parsers, the
--               packing, and the next address. Compiler/Meaning is what an operand means,
--               Compiler/Insn a whole instruction, Compiler/Link the shuffled program, and
--               Compiler/Program a program without jumps from its lines to the rounds on it.
--   Strings     proc_self_exe of VM/src/strings.c, and ROL32 and ROR32 of VM/lib/utils.h.
--   Threads     all the threads of the process, which share code and memory: a step relation on
--               the list of their contexts. Threads/Ready is the handshake of FORK over its
--               futex word.
--   Syscalls    the numbers of VM/lib/syscall.h and the functions of VM/src/syscall.c.
--               Syscalls/Wrapper is what they ask and do with the reply, Syscalls/Print and
--               Syscalls/Sleep one function each.
--   Loader      load_vcode of VM/WeeperVM.c, and the encrypted length that
--               Compiler/WeeperVM_compile.py writes; Loader/Start is _start, Loader/Start/Program
--               a whole program from the compiler to its end. Loader/Calls is load_vcode with its
--               buffers and system calls.
--   Tests       a small program, and each theorem at it.
--
-- The model. A function that C calls for its effect takes and returns a `Machine`. Its outcome is
-- a `Run`: a value, `exited` for a call of sys_exit, or `undefined` for what C does not define (an
-- access out of range, the null entry of a table, a variable never set, a division by 0, a shift
-- by the width). One step is taken as gcc compiles it: `dispatch` takes one from the int `jmpDst`,
-- where 0x80000000 becomes 0x7fffffff. `uint32_t` is a number with its wrap-around written out; an
-- `int` that only carries bits, as in `vmem[a] << 24`, is its 32-bit pattern; an index that would
-- be negative is undefined. The `trash` arguments and the junk computed from them are kept.
--
-- Bounds. `sys_print` takes a number of rounds, for which more than the text has bytes are enough.
-- The scan of the previous call stack has 21846 rounds, one for each three bytes of its
-- region, and is shown to end within them. `emulate` takes a number of rounds and gives `none` if
-- they do not suffice, since a virtual program need not end; what is said of runs is said of every
-- state that they reach, whatever the number.
--
-- The system. A `Kernel` is what the system does during one round of `emulate`: what it returns
-- for a call and leaves in memory, and what FORK gets. The system has a state that the program
-- does not see, so that a READ that is made again can give other bytes: a run has a sequence of
-- kernels, one for each round, and every round of every thread may have any kernel.
--
-- Threads. An instruction of a thread is one step, though on several processors the bytes that it
-- reads and writes could interleave with those of another. FORK in one thread records the start of
-- another. Its child runs on the stack that the arguments of CLONE3 name, which is the memory
-- right above what is mapped for it. Whether that memory is there and no one else's is asked of
-- the kernel (`is_private`), and FORK is undefined if not; if so, nothing else can reach the
-- child's `WeeperContext`. The handshake of the two is a machine of its own, in which WAIT may
-- return for no reason and the child, back from `emulate`, unmaps the memory of the flag; time is
-- not in it, so neither is the second for which the child sleeps. `sys_exit` ends its thread. The
-- return of the first thread ends the process, and that of another unmaps the flag's memory and
-- goes on from `handle_fork` on a stack that has no frame of it, so there the process takes no
-- further step.
--
-- Not modelled. The kernel is a parameter (`Kernel`, and `System` for the loader): what a system
-- call returns and does to memory, what a fork gets, and the answer of `cpuid`; so is what
-- `syscall` does for the functions of VM/src/syscall.c, and Loader/Calls/Serves says what the
-- loader relies on of it. It is taken that these functions are called as the System V convention
-- says. The reads of the own file are taken not to fail. The sleep of the child of a FORK, and in
-- the compiler the splitting of the assembly text, constants, the resolving of labels and the
-- printing have no model. What the compiler draws at random (the left half of an opcode, its
-- cipher, the order of the instructions, a word for the length) is an argument.
pub mod Base
pub mod Stack
pub mod Machine
pub mod Memory
pub mod Operand
pub mod Handler
pub mod Emulate
pub mod Invariant
pub mod Compiler
pub mod Loader
pub mod Strings
pub mod Threads
pub mod Syscalls
pub mod Tests
