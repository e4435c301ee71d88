-- ===== src/Loader/Start/Program.antt =====
-- From the lines of a program to the end of the process.
use weeper_vm.Base.{
  ℕ, ◌+◌, ◌^◌, ◌<◌, ◌≡◌, refl, ap, ◌∙◌, arith, true, List, ◌∷◌, ◌++◌, some, length, All,
}
use weeper_vm.Stack.{Stack}
use weeper_vm.Machine.{vmem_size}
use weeper_vm.Handler.Sys.{Kernel}
use weeper_vm.Emulate.{fresh_context, emulate}
use weeper_vm.Invariant.Step.{fresh_context-IsWf}
use weeper_vm.Compiler.Meaning.{Source, IsSource}
use weeper_vm.Compiler.Link.{total, join, link}
use weeper_vm.Compiler.Program.{Line, run_lines, IsLine, items, zip_packed, IsShuffle}
use weeper_vm.Compiler.Program.Runs.{
  emulate_loop-run_lines, zip_packed-link-All, length-join, run_lines-ends,
}
use weeper_vm.Loader.{System, compile_file}
use weeper_vm.Loader.Length.{IsFile, load_vcode-compile_file}
use weeper_vm.Loader.Start.{with_code, start}

-- A program does what it says, from the compiler to the end of the process. Let a program of any
-- number of lines, each MOV, ADD, SUB, MUL, AND, OR or XOR to a register from an operand that is a
-- register, a number or in memory, with sizes and registers of the language and no MOV from a
-- source that is wider than its destination, and of EXIT at its end, be packed with whatever left
-- halves and ciphers are drawn; be shuffled in any way that keeps the first instruction; be linked;
-- be joined, below 16 MiB; and be put, with its encrypted length, behind an ELF image, below 2 GiB.
-- If memory can be had and be protected, then the process that starts from that file, for more
-- rounds than there are lines, runs the lines in the order of the source from the state at the
-- start, and ends with what the operand of EXIT then means, whatever the system does in each round.
pub start-run_lines :
    (s : System) (ks : ℕ → Kernel) (blank : Stack) (image : List ℕ) (left cipher : ℕ → ℕ)
    (cs : List Line) (e : Source) (combined shuffled : List (List ℕ × ℕ)) (last : ℕ)
    (out : List (List ℕ)) (k_lo rounds : ℕ)
    → ((j : ℕ) → left j < 32)
    → ((j : ℕ) → cipher j < 4)
    → All IsLine cs
    → IsSource e
    → zip_packed (items left cipher 0 cs e) ≡ some combined
    → IsShuffle combined shuffled
    → link shuffled last ≡ some out
    → total out < 2 ^ 24
    → k_lo < 2 ^ 32
    → (let elf = 0x7f ∷ 0x45 ∷ 0x4c ∷ 0x46 ∷ image in
        IsFile s (elf ++ compile_file (join out) k_lo))
    → 12 + length image + total out < 2 ^ 31
    → s.has_memory vmem_size ≡ true
    → s.has_memory (total out) ≡ true
    → s.protects (total out) ≡ true
    → length cs < rounds
    → start s ks rounds blank ≡ run_lines cs e (fresh_context (with_code blank (join out)) blank)
unfolding start emulate
start-run_lines s ks blank image left cipher cs e combined shuffled last out k_lo rounds hl ho lines
      he packs shuffle linked small hk file fits has_vmem has_code protects enough =
    let bytes = join out in
    let size : length (join out) ≡ total out = length-join out in
    let m = fresh_context (with_code blank (join out)) blank in
    let wf =
      fresh_context-IsWf (with_code blank bytes) blank
        (zip_packed-link-All left cipher cs e combined shuffled last out packs shuffle linked)
        (λ a. omega arith) in
    rw
      (
        has_vmem,
        load_vcode-compile_file s image bytes k_lo file (omega (arith, size)) hk
            (ap s.has_memory size ∙ has_code) (ap s.protects size ∙ protects),
        emulate_loop-run_lines ks left cipher cs e combined shuffled last out rounds m wf hl ho
            lines he packs shuffle linked small refl enough,
      )
      (run_lines-ends cs e m _)
