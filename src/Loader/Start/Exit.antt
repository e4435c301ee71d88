-- ===== src/Loader/Start/Exit.antt =====
-- From a program in the assembly language to the end of the process.
use weeper_vm.Base.{
  ℕ, suc, ◌+◌, ◌^◌, ◌<◌, ◌≡◌, ap, arith, true, List, ◌∷◌, ◌++◌, none, some, exited, ◌>>=◌, length,
  get_elem?,
}
use weeper_vm.Stack.{Stack}
use weeper_vm.Machine.{vmem_size}
use weeper_vm.Handler.Sys.{Kernel}
use weeper_vm.Emulate.{fresh_context, emulate_loop, emulate}
use weeper_vm.Invariant.{IsWf}
use weeper_vm.Invariant.Step.{fresh_context-IsWf}
use weeper_vm.Compiler.Meaning.{Source, meaning, IsSource}
use weeper_vm.Compiler.Insn.{compile_insn}
use weeper_vm.Compiler.Insn.Parts.{compile_insn-All}
use weeper_vm.Compiler.Insn.Runs.{emulate_step-compile_insn}
use weeper_vm.Compiler.Insn.Exit.{exits_through, dispatch-exit}
use weeper_vm.Loader.{System, compile_file}
use weeper_vm.Loader.Length.{IsFile, load_vcode-compile_file}
use weeper_vm.Loader.Start.{with_code, start}

-- A file that the compiler has written for the one instruction EXIT, with any operand of the
-- language and whatever is drawn at random, put behind an ELF image and run: the process ends with
-- what the operand means in the state at the start, if the file is below 2 GiB and memory can be
-- had and be protected.
pub start-exit :
    (s : System) (ks : ℕ → Kernel) (blank : Stack) (image bytes : List ℕ) (a : Source)
    (l o ft k_lo rounds : ℕ)
    → IsSource a
    → l < 32
    → o < 4
    → ft < 2 ^ 24
    → k_lo < 2 ^ 32
    → compile_insn l o 13 ft (some a) none ≡ some bytes
    → (let elf = 0x7f ∷ 0x45 ∷ 0x4c ∷ 0x46 ∷ image in IsFile s (elf ++ compile_file bytes k_lo))
    → 12 + length image + length bytes < 2 ^ 31
    → s.has_memory vmem_size ≡ true
    → s.has_memory (length bytes) ≡ true
    → s.protects (length bytes) ≡ true
    → start s ks (suc rounds) blank
      ≡ (meaning (fresh_context (with_code blank bytes) blank) a >>= λ c. exited c)
unfolding start emulate emulate_loop
start-exit s ks blank image bytes a l o ft k_lo rounds ha hl ho hf hk compiled file small has_vmem
      has_code protects =
    let m = fresh_context (with_code blank bytes) blank in
    let wf : IsWf (fresh_context (with_code blank bytes) blank) =
      fresh_context-IsWf (with_code blank bytes) blank
        (compile_insn-All l o 13 ft (some a) none bytes hf compiled) (λ a. omega arith) in
    let (op1, op2, (step, means, _, _, _)) =
      emulate_step-compile_insn (ks 0) m 0 l o 13 ft (some a) none bytes wf ha hl ho (omega arith)
        hf compiled (omega arith) (λ i h. ap (λ (n : ℕ). get_elem? bytes n) (omega arith)) in
    rw
      (
        has_vmem,
        load_vcode-compile_file s image bytes k_lo file small hk has_code protects,
        step,
        dispatch-exit (ks 0) m 0 op1 op2 a means,
      )
      (exits_through (meaning m a) _ _)
