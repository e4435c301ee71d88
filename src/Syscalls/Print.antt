-- ===== src/Syscalls/Print.antt =====
-- `sys_print`: the text up to its zero.
use weeper_vm.Base.{
  ℕ, zero, suc, ◌+◌, ◌<◌, ◌≡◌, ◌≢◌, refl, ◌∙◌, ap, subst, arith, false, List, [], ◌∷◌, Run, ok,
  ◌>>=◌, u32, length, ◌==◌,
}
use weeper_vm.Machine.{Bytes}
use weeper_vm.Syscalls.{World, Registers, call_number, print_loop, sys_write, sys_print}

-- The bytes of a text stand in memory from `a` on, with a zero behind it.
abbrev pub TextAt : Bytes → ℕ → List ℕ → Type 0
TextAt mem a [] = mem a ≡ 0
TextAt mem a (c ∷ cs) = (mem a ≡ c) × (c ≢ 0) × TextAt mem (a + 1) cs

zero_add : (n : ℕ) → 0 + n ≡ n
zero_add n = omega arith

print_loop-length :
    (cs : List ℕ) (fuel : ℕ) (mem : Bytes) (buf i : ℕ)
    → TextAt mem (buf + i) cs
    → length cs < fuel
    → print_loop fuel mem buf i ≡ ok (i + length cs)
unfolding print_loop
print_loop-length cs zero mem buf i h enough = absurd (omega arith)
print_loop-length [] (suc fuel) mem buf i h enough = rw h (ap ok (omega arith))
print_loop-length (c ∷ cs) (suc fuel) mem buf i (here, other, rest) enough =
    let more : (mem (buf + i) == 0) ≡ false = ground arith in
    rw more (
      print_loop-length cs fuel mem buf (i + 1)
        (subst (λ (n : ℕ). TextAt mem n cs) (omega arith) rest) (omega arith)
      ∙ ap ok (omega arith))

-- `sys_print` ends and writes the text. Let a text of bytes that are not 0 stand at `buf` with a 0
-- behind it, and the loop have more rounds than the text has bytes. Then the loop ends, and the one
-- system call that is made writes as many bytes as the text has from `buf` to descriptor 1; its
-- result, cut to an `int`, is returned.
pub sys_print-TextAt :
    {S : Type 0} (syscall : Registers → World S → Run (ℕ × World S)) (fuel buf : ℕ) (text : List ℕ)
    (r : Registers) (w : World S)
    → TextAt w.mem buf text
    → length text < fuel
    → sys_print syscall fuel buf r w ≡ (
        syscall (record r { rax = 1; rdi = 1; rsi = buf; rdx = length text }) w >>= λ (x, w').
        ok (u32 x, w'))
unfolding sys_print sys_write call_number
sys_print-TextAt syscall fuel buf text r w h enough =
    rw
      (
        print_loop-length text fuel w.mem buf 0
            (subst (λ (n : ℕ). TextAt w.mem n text) (omega arith) h) enough,
        zero_add (length text),
      )
      refl
