-- ===== src/Loader/Calls/Refine.antt =====
-- `load_vcode` by its system calls is the loader that Loader describes.
use weeper_vm.Base.{
  ℕ, ◌+◌, ◌≤◌, ◌≡◌, ◌⊎◌, refl, sym, ap, ap₂, ◌∙◌, arith, Bool, true, false, not, List,
  if◌then◌else◌, Run, ok, exited, ◌>>=◌, u32, sub32,
}
use weeper_vm.Syscalls.{Registers, World}
use weeper_vm.Loader.{
  System, seek, self_path, big_endian, little_endian, decrypt_length, mapped, load_vcode,
}
use weeper_vm.Loader.Calls.{
  BufferPlaces, bytes_of, read_buffers, length_of, read_code, load_by_calls,
}
use weeper_vm.Loader.Calls.Reads.{
  bind_same, if_bind, bind_twice, seek-lt, read_all, head_there, length_there, read_code_all,
  code_there, head_read, code_read,
}
use weeper_vm.Loader.Calls.Serves.{Serves}

-- The code that is loaded: what stands at `vcode`.
abbrev pub code_of : {S : Type 0} → ℕ × ℕ × World S → List ℕ
code_of t = bytes_of t.1 t.2.mem t.0

-- The length from the two buffers.
abbrev length_from : (encrypted elf_hdr : List ℕ) → Run ℕ
length_from encrypted elf_hdr = do
  lo ← big_endian encrypted 4
  hi ← big_endian encrypted 0
  k_elf ← little_endian elf_hdr
  ok (decrypt_length k_elf hi lo)

length_of-eq :
    {S : Type 0} (syscall : Registers → World S → Run (ℕ × World S)) (f : BufferPlaces)
    (w : World S)
    → length_of syscall f w ≡ length_from (bytes_of 8 w.mem f.len_at) (bytes_of 4 w.mem f.elf_at)
unfolding length_of
length_of-eq syscall f w = refl

length_from-then :
    {A : Type 0} (encrypted elf_hdr : List ℕ) (g : ℕ → Run A)
    → (length_from encrypted elf_hdr >>= g) ≡ (do
      lo ← big_endian encrypted 4
      hi ← big_endian encrypted 0
      k_elf ← little_endian elf_hdr
      g (decrypt_length k_elf hi lo))
length_from-then encrypted elf_hdr g =
    bind_twice (big_endian encrypted 4) _ g
    ∙ bind_same (big_endian encrypted 4) _ _ λ lo _.
      bind_twice (big_endian encrypted 0) _ g
      ∙ bind_same (big_endian encrypted 0) _ _ λ hi _. bind_twice (little_endian elf_hdr) _ g

-- The code of the length.
abbrev code_from : System → (self_size vcode_len : ℕ) → Run (List ℕ)
code_from s self_size vcode_len = if not (s.has_memory vcode_len) then exited 9 else do
  at_code ← seek (sub32 (sub32 self_size 8) vcode_len)
  if not (s.protects vcode_len) then exited 8 else ok (mapped vcode_len (s.read at_code vcode_len))

not_if : {A : Type 0} (o : Bool) (x y : A) → (if o then x else y) ≡ (if not o then y else x)
not_if true x y = refl
not_if false x y = refl

if_same :
    {A : Type 0} (o : Bool) {x x' : A} (y : A)
    → x ≡ x'
    → (if o then x else y) ≡ (if o then x' else y)
if_same o y e = ap (λ x. if o then x else y) e

abbrev view : {S : Type 0} → ℕ × ℕ × World S → Run (List ℕ)
view t = ok (code_of t)

abbrev with_length : {S : Type 0} → ℕ → ℕ × World S → Run (ℕ × ℕ × World S)
with_length n t = ok (t.0, n, t.1)

module _ {S : Type 0} {s : System} (syscall : Registers → World S → Run (ℕ × World S))
    (k : Serves s syscall) (f : BufferPlaces) (same_sse : f.sse ≡ s.sse) (r : Registers)
    (w : World S) where
  code_all :
      (sz n : ℕ) (w' : World S)
      → ((read_code syscall f r k.fd sz n w' >>= with_length n) >>= view) ≡ code_from s sz n
  code_all sz n w' =
      let at = sub32 (sub32 sz 8) n in
      let got = code_read syscall k f same_sse r w at n w' in
      bind_twice (read_code syscall f r k.fd sz n w') (with_length n) view
      ∙ rw (read_code_all syscall k f same_sse r w sz n w') (
          if_bind (s.has_memory n) _ (exited 9) _ _ (exited 9)
            (bind_twice (seek at) _ _
              ∙ bind_same (seek at) _ _ λ pos h.
                if_bind (s.protects n) (ok (k.page, got)) (exited 8) _ _ (exited 8) refl refl
                ∙ not_if (s.protects n) _ (exited 8)
                ∙ ap (λ xs. if not (s.protects n) then exited 8 else ok xs)
                    (code_there syscall k f same_sse r w at n w'
                      ∙ ap (λ (i : ℕ). mapped n (s.read i n)) (sym (seek-lt at pos h).0)))
            refl
          ∙ not_if (s.has_memory n) _ (exited 9))

-- `load_vcode` by its system calls is the loader that the whole program is shown correct with. Let
-- the system behind the calls behave as the manual pages say, and serve the file and the memory
-- that `s` describes; and let the two buffers on the stack lie apart. Then `load_vcode`, with its
-- buffers, its descriptor and every call through the functions of syscall.c, ends the process with
-- the same code, or is undefined, exactly where the loader does, and where that returns, the code
-- that it returns stands in memory at the address that is put into `vcode`, in the length that is
-- returned.
pub load_by_calls-load_vcode :
    {S : Type 0} {s : System} (syscall : Registers → World S → Run (ℕ × World S)) (f : BufferPlaces)
    (r : Registers) (w : World S)
    → Serves s syscall
    → f.sse ≡ s.sse
    → (f.len_at + 8 ≤ f.elf_at) ⊎ (f.elf_at + 4 ≤ f.len_at)
    → (load_by_calls syscall f r w >>= λ (vcode, n, w'). ok (bytes_of n w'.mem vcode))
      ≡ load_vcode s
unfolding load_by_calls load_vcode
load_by_calls-load_vcode {s = s} syscall f r w k same_sse apart =
    bind_twice (read_buffers syscall f r w) _ view
    ∙ rw (read_all syscall k f same_sse r w) (
        if_bind (s.opens (self_path s)) _ (exited 2) _ _ (exited 2)
          (bind_twice (seek (u32 s.size)) _ _
            ∙ bind_same (seek (u32 s.size)) _ _ λ sz h.
              let n = sub32 sz 8 in
              bind_twice (seek n) _ _
              ∙ bind_same (seek n) _ _ λ pos h'.
                let (same, near) = seek-lt n pos h' in
                let (size, short) = seek-lt (u32 s.size) sz h in
                let inside : n + 8 ≤ s.size = omega (arith, near, size, short) in
                let state = head_read syscall k f same_sse r w n in
                let enc =
                  length_there syscall k f same_sse r w n inside apart
                  ∙ ap (λ (i : ℕ). s.read i 8) (sym same) in
                let hdr = head_there syscall k f same_sse r w n inside apart in
                bind_twice (length_of syscall f state) _ view
                ∙ bind_same (length_of syscall f state) _ _
                    (λ len _. code_all syscall k f same_sse r w sz len state)
                ∙ ap (λ x. x >>= code_from s sz)
                    (length_of-eq syscall f state ∙ ap₂ length_from enc hdr)
                ∙ length_from-then (s.read pos 8) (s.read 0 4) (code_from s sz))
          refl
        ∙ not_if (s.opens (self_path s)) _ (exited 2))
