-- ===== src/Loader/Calls/Reads.antt =====
-- What the system calls of `load_vcode` read.
use weeper_vm.Base.{
  ℕ, ◌+◌, ◌^◌, ◌<◌, ◌≤◌, ◌≡◌, ◌⊎◌, inl, inr, refl, sym, ap, ◌∙◌, arith, Bool, Bool-cases, true,
  false, length, ltb, if◌then◌else◌, Run, ok, ok-injective, exited, undefined, ◌>>=◌, u32, sub32,
}
use weeper_vm.Strings.{proc_self_exe, c_string}
use weeper_vm.Syscalls.{Registers, World, negative_int, exit_if}
use weeper_vm.Loader.{System, seek, self_path, mapped}
use weeper_vm.Loader.Calls.{BufferPlaces, bytes_of, with_path, read_buffers, read_code}
use weeper_vm.Loader.Calls.Buffers.{
  put_list, put_list-other, bytes_of-same, bytes_of-mapped, bytes_of-put_list, c_string-with_path,
}
use weeper_vm.Loader.Calls.Serves.{
  Serves, cleared, sys_open-Serves, sys_lseek-Serves, sys_lseek-end, after_read, sys_read-Serves,
  sys_mmap-Serves, sys_mprotect-Serves, sys_close-Serves,
}

-- Composition.
module _ {A B : Type 0} where
  pub bind_same :
      (x : Run A) (f g : A → Run B) → ((a : A) → x ≡ ok a → f a ≡ g a) → (x >>= f) ≡ (x >>= g)
  bind_same (ok a) f g h = h a refl
  bind_same (exited c) f g h = refl
  bind_same undefined f g h = refl

  pub if_bind :
      (o : Bool) (x y : Run A) (f : A → Run B) (x' y' : Run B)
      → (x >>= f) ≡ x'
      → (y >>= f) ≡ y'
      → ((if o then x else y) >>= f) ≡ (if o then x' else y')
  if_bind true x y f x' y' hx hy = hx
  if_bind false x y f x' y' hx hy = hy

  pub bind_twice :
      {C : Type 0} (x : Run A) (f : A → Run B) (g : B → Run C)
      → ((x >>= f) >>= g) ≡ (x >>= λ a. f a >>= g)
  bind_twice (ok a) f g = refl
  bind_twice (exited c) f g = refl
  bind_twice undefined f g = refl

-- A position that `seek` accepts.
pub seek-lt : (n a : ℕ) → seek n ≡ ok a → (a ≡ n) × (n < 2 ^ 31)
unfolding seek
seek-lt n a e = elim (Bool-cases (ltb n (2 ^ 31))) [
  | inl h ↦ (sym (ok-injective (sym (rw h refl) ∙ e)), ground arith)
  | inr h ↦ absurd (exits (sym (rw h refl) ∙ e))
]
  where
    exits : Path (Run ℕ) (exited 8) (ok a) → ⊥
    exits e = cc

seek_start : seek 0 ≡ ok 0
unfolding seek
seek_start = refl

sub32-lt : (a b : ℕ) → sub32 a b < 2 ^ 32
sub32-lt a b = omega arith

module _ {S : Type 0} {s : System} (syscall : Registers → World S → Run (ℕ × World S))
    (k : Serves s syscall) (f : BufferPlaces) (same_sse : f.sse ≡ s.sse) (r : Registers)
    (w : World S) where
  -- The states of the system after each call.
  abbrev filled : World S
  filled = record w {
    mem = with_path w.mem f.path_at (proc_self_exe f.sse (λ i. w.mem (f.path_at + i)) 0x959e8e02);
  }

  abbrev at_end : World S
  at_end = record filled { sys = k.at (k.at w.sys 0) s.size }

  abbrev at_length : ℕ → World S
  at_length n = record at_end { sys = k.at at_end.sys n }

  abbrev length_read : ℕ → World S
  length_read n = after_read syscall k r f.len_at 8 (at_length n)

  abbrev at_head : ℕ → World S
  at_head n = record (length_read n) { sys = k.at (length_read n).sys 0 }

  abbrev pub head_read : ℕ → World S
  head_read n = after_read syscall k r f.elf_at 4 (at_head n)

  path_there : c_string 16 (λ i. filled.mem (f.path_at + i)) 0 ≡ self_path s
  unfolding self_path
  path_there =
      c_string-with_path f.sse w.mem f.path_at
      ∙ ap (λ b. c_string 16 (proc_self_exe b (λ i. 0) 0x959e8e02) 0) same_sse

  fd_there :
      exit_if syscall (negative_int k.fd) 1 r (record filled { sys = k.at w.sys 0 })
      ≡ ok (record filled { sys = k.at w.sys 0 })
  unfolding exit_if
  fd_there = let small : negative_int k.fd ≡ false = ground (arith, k.fd_int) in rw small refl

  pub read_all : read_buffers syscall f r w ≡ (
      if s.opens (self_path s)
      then (do
        self_size ← seek (u32 s.size)
        pos ← seek (sub32 self_size 8)
        ok (k.fd, self_size, head_read (sub32 self_size 8)))
      else exited 2)
  unfolding read_buffers
  read_all =
      rw (sys_open-Serves syscall k r f.path_at 0 r.rdx filled, path_there)
        (if_bind (s.opens (self_path s)) (ok (k.fd, record filled { sys = k.at w.sys 0 }))
          (exited 2) _ _ (exited 2)
          (rw (fd_there, sys_lseek-end syscall k r (record filled { sys = k.at w.sys 0 }))
            (bind_twice (seek (u32 s.size)) _ _
              ∙ bind_same (seek (u32 s.size)) _ _ λ sz _.
                let n = sub32 sz 8 in
                rw (sys_lseek-Serves syscall k r n at_end (sub32-lt sz 8)) (
                  bind_twice (seek n) _ _
                  ∙ bind_same (seek n) _ _ λ pos _.
                    rw
                      (
                        sys_read-Serves syscall k r f.len_at 8 (at_length n),
                        sys_lseek-Serves syscall k r 0 (length_read n) (omega arith),
                        seek_start,
                        sys_read-Serves syscall k r f.elf_at 4 (at_head n),
                      )
                      refl)))
          refl)

  -- What is in the buffers.
  module _ (n : ℕ) (inside : n + 8 ≤ s.size)
      (apart : (f.len_at + 8 ≤ f.elf_at) ⊎ (f.elf_at + 4 ≤ f.len_at)) where
    pub head_there : bytes_of 4 (head_read n).mem f.elf_at ≡ s.read 0 4
    head_there =
        ap (λ (i : ℕ). bytes_of 4 (put_list (at_head n).mem f.elf_at (s.read i 4)) f.elf_at)
          (k.offset-at (length_read n).sys 0)
        ∙ bytes_of-put_list 4 (at_head n).mem f.elf_at (s.read 0 4)
            (k.read_full 0 4 (omega (arith, inside)) (omega arith))

    pub length_there : bytes_of 8 (head_read n).mem f.len_at ≡ s.read n 8
    length_there =
        bytes_of-same 8 (length_read n).mem (head_read n).mem f.len_at
          (λ b lo hi. put_list-other (at_head n).mem f.elf_at _ b (away b lo hi))
        ∙ ap (λ (i : ℕ). bytes_of 8 (put_list at_end.mem f.len_at (s.read i 8)) f.len_at)
            (k.offset-at at_end.sys n)
        ∙ bytes_of-put_list 8 at_end.mem f.len_at (s.read n 8)
            (k.read_full n 8 inside (omega arith))
      where
        away :
            (b : ℕ)
            → f.len_at ≤ b
            → b < f.len_at + 8
            → (b < f.elf_at) ⊎ (f.elf_at + length (s.read (k.offset (at_head n).sys) 4) ≤ b)
        away b lo hi =
            let short : length (s.read (k.offset (at_head n).sys) 4) ≤ 4 =
              k.read_short (k.offset (at_head n).sys) 4 in
            elim apart [
              | inl h ↦ inl (omega (arith, h, hi))
              | inr h ↦ inr (omega (arith, h, lo, short))
            ]

  -- The last calls: the code is read.
  abbrev mapping : ℕ → World S → World S
  mapping n w = record w { mem = cleared w.mem k.page n }

  abbrev pub code_read : (at n : ℕ) → World S → World S
  code_read at n w = after_read syscall k r k.page n (record (mapping n w) { sys = k.at w.sys at })

  pub read_code_all :
      (sz n : ℕ) (w : World S)
      → read_code syscall f r k.fd sz n w ≡ (
          if s.has_memory n
          then (do
            pos ← seek (sub32 (sub32 sz 8) n)
            if s.protects n then ok (k.page, code_read (sub32 (sub32 sz 8) n) n w) else exited 8)
          else exited 9)
  unfolding read_code
  read_code_all sz n w =
      let at = sub32 (sub32 sz 8) n in
      let found = record (mapping n w) { sys = k.at w.sys at } in
      rw (sys_mmap-Serves syscall k r n 3 0x22 w) (
        if_bind (s.has_memory n) (ok (k.page, mapping n w)) (exited 9) _ _ (exited 9)
          (rw (sys_lseek-Serves syscall k r at (mapping n w) (sub32-lt (sub32 sz 8) n)) (
            bind_twice (seek at) _ _
            ∙ bind_same (seek at) _ _ λ pos _.
              rw
                (
                  sys_read-Serves syscall k r k.page n found,
                  sys_mprotect-Serves syscall k r k.page n 1
                      (after_read syscall k r k.page n found),
                )
                (if_bind (s.protects n) (ok (after_read syscall k r k.page n found)) (exited 8) _ _
                  (exited 8)
                  (rw
                    (sys_close-Serves syscall k r r.rsi r.rdx
                      (after_read syscall k r k.page n found))
                    refl)
                  refl)))
          refl)

  pub code_there :
      (at n : ℕ) (w : World S) → bytes_of n (code_read at n w).mem k.page ≡ mapped n (s.read at n)
  code_there at n w =
      ap (λ (i : ℕ). bytes_of n (put_list (cleared w.mem k.page n) k.page (s.read i n)) k.page)
        (k.offset-at w.sys at)
      ∙ bytes_of-mapped n (cleared w.mem k.page n) k.page (s.read at n) (k.read_short at n)
          (λ b lo hi. zeros b (omega (arith, lo)) hi)
    where
      zeros : (b : ℕ) → k.page ≤ b → b < k.page + n → cleared w.mem k.page n b ≡ 0
      zeros b lo hi = ground arith
