-- ===== src/Loader/Calls/Serves.antt =====
-- What the loader relies on of the system, as the manual pages have it, and what the functions of
-- VM/src/syscall.c then do.
use weeper_vm.Base.{
  ℕ, ◌+◌, ◌-◌, ◌^◌, ◌<◌, ◌≤◌, ◌≡◌, refl, ap, ◌∙◌, arith, Bool, Bool-cases, inl, inr, true, false,
  ◌&&◌, length, ltb, leb, if◌then◌else◌, Run, ok, exited, ◌>>=◌, u32,
}
use weeper_vm.Machine.{Bytes}
use weeper_vm.Strings.{c_string}
use weeper_vm.Syscalls.{
  Registers, World, negative_int, negative_long, call_number, exit_if, sys_exit, sys_open,
  sys_lseek, sys_read, sys_mmap, sys_mprotect, sys_close,
}
use weeper_vm.Syscalls.Wrapper.{Exits}
use weeper_vm.Loader.{System, seek}
use weeper_vm.Loader.Calls.{call3}
use weeper_vm.Loader.Calls.Buffers.{put_list}

-- A mapping of zeros.
abbrev pub cleared : Bytes → (page n : ℕ) → Bytes
cleared mem page n x = if leb page x && ltb x (page + n) then 0 else mem x

-- The system `s` behind its calls. OPEN gives the descriptor `fd`, or the error ENOENT; LSEEK sets
-- the offset to a position or to the end, and returns it; READ puts the bytes at the offset into
-- memory, no more than asked for and below 2 GiB, and returns how many; MMAP gives zeroed memory at
-- `page`, or ENOMEM; MPROTECT returns 0, or EACCES; CLOSE returns.
pub record Serves {S : Type 0} (s : System) (syscall : Registers → World S → Run (ℕ × World S))
    : Type 0 where
  pub fd : ℕ
  pub page : ℕ
  pub offset : S → ℕ
  pub at : S → ℕ → S
  pub offset-at : (x : S) (n : ℕ) → offset (at x n) ≡ n
  pub fd_int : fd < 2 ^ 31
  pub page_long : page < 2 ^ 63
  pub size_long : s.size < 2 ^ 63
  pub read_short : (n count : ℕ) → length (s.read n count) ≤ count
  pub read_int : (n count : ℕ) → length (s.read n count) < 2 ^ 31
  pub read_full : (n count : ℕ) → n + count ≤ s.size → count ≤ 8 → length (s.read n count) ≡ count
  pub exit_call : Exits syscall
  pub open_call :
      (r : Registers) (w : World S)
      → r.rax ≡ 2
      → syscall r w
        ≡ ok (
          if s.opens (c_string 16 (λ i. w.mem (r.rdi + i)) 0) then fd else 2 ^ 64 - 2,
          record w { sys = at w.sys 0 },
        )
  pub seek_call :
      (r : Registers) (w : World S)
      → r.rax ≡ 8
      → r.rdi ≡ fd
      → r.rdx ≡ 0
      → r.rsi < 2 ^ 63
      → syscall r w ≡ ok (r.rsi, record w { sys = at w.sys r.rsi })
  pub end_call :
      (r : Registers) (w : World S)
      → r.rax ≡ 8
      → r.rdi ≡ fd
      → r.rdx ≡ 2
      → r.rsi ≡ 0
      → syscall r w ≡ ok (s.size, record w { sys = at w.sys s.size })
  pub read_call :
      (r : Registers) (w : World S)
      → r.rax ≡ 0
      → r.rdi ≡ fd
      → (let bs = s.read (offset w.sys) r.rdx in
          syscall r w
          ≡ ok (
            length bs,
            record w { mem = put_list w.mem r.rsi bs; sys = at w.sys (offset w.sys + length bs) },
          ))
  pub mmap_call :
      (r : Registers) (w : World S)
      → r.rax ≡ 9
      → r.rdi ≡ 0
      → syscall r w ≡ (
          if s.has_memory r.rsi
          then ok (page, record w { mem = cleared w.mem page r.rsi })
          else ok (2 ^ 64 - 12, w))
  pub protect_call :
      (r : Registers) (w : World S)
      → r.rax ≡ 10
      → syscall r w ≡ ok (if s.protects r.rsi then 0 else 2 ^ 64 - 13, w)
  pub close_call :
      (r : Registers) (w : World S) → r.rax ≡ 3 → r.rdi ≡ fd → (x : ℕ) × (syscall r w ≡ ok (x, w))

abbrev pub opened_as : {S : Type 0} → ℕ → World S → Run (ℕ × World S)
opened_as x w = ok (x, w)

small_int : (x : ℕ) → x < 2 ^ 31 → (u32 x ≡ x) × (negative_int x ≡ false)
small_int x h = ground arith

small_long : (x : ℕ) → x < 2 ^ 63 → negative_long x ≡ false
small_long x h = ground arith

module _ {S : Type 0} {s : System} (syscall : Registers → World S → Run (ℕ × World S))
    (k : Serves s syscall) (r : Registers) where
  ends :
      (code : ℕ) (r : Registers) (w : World S)
      → sys_exit syscall (record r { rdi = code }) w ≡ exited (u32 code)
  unfolding sys_exit call_number
  ends code r w = rw (k.exit_call (record r { rdi = code; rax = 60 }) w refl) refl

  opened :
      (o : Bool) (r : Registers) (w : World S)
      → (let x = if o then k.fd else 2 ^ 64 - 2 in
          (exit_if syscall (negative_int (u32 x)) 2 r w >>= λ w'. opened_as (u32 x) w')
          ≡ (if o then ok (k.fd, w) else exited 2))
  unfolding exit_if
  opened true r w = let (same, small) = small_int k.fd k.fd_int in rw (same, small) refl
  opened false r w = rw (ends 2 r w) refl

  pub sys_open-Serves :
      (a b c : ℕ) (w : World S)
      → sys_open syscall (call3 r a b c) w ≡ (
          if s.opens (c_string 16 (λ i. w.mem (a + i)) 0)
          then ok (k.fd, record w { sys = k.at w.sys 0 })
          else exited 2)
  unfolding sys_open call_number
  sys_open-Serves a b c w = rw (k.open_call (record (call3 r a b c) { rax = 2 }) w refl) (
      opened (s.opens (c_string 16 (λ i. w.mem (a + i)) 0)) (call3 r a b c)
        (record w { sys = k.at w.sys 0 }))

  sought :
      (x : ℕ) (r : Registers) (w : World S)
      → (exit_if syscall (negative_int (u32 x)) 8 r w >>= λ w'. opened_as (u32 x) w')
        ≡ (seek (u32 x) >>= λ pos. opened_as pos w)
  unfolding exit_if seek
  sought x r w = elim (Bool-cases (ltb (u32 x) (2 ^ 31))) [
    | inl h ↦ let small : negative_int (u32 x) ≡ false = ground arith in rw (small, h) refl
    | inr h ↦
        let large : negative_int (u32 x) ≡ true = ground arith in rw (large, h, ends 8 r w) refl
  ]

  pub sys_lseek-Serves :
      (n : ℕ) (w : World S)
      → n < 2 ^ 32
      → sys_lseek syscall (call3 r k.fd n 0) w
        ≡ (seek n >>= λ pos. opened_as pos (record w { sys = k.at w.sys n }))
  unfolding sys_lseek call_number
  sys_lseek-Serves n w h =
      let same : u32 n ≡ n = omega (arith, h) in
      rw (k.seek_call (record (call3 r k.fd n 0) { rax = 8 }) w refl refl refl (omega (arith, h))) (
        sought n (call3 r k.fd n 0) (record w { sys = k.at w.sys n })
        ∙ ap (λ (q : ℕ). seek q >>= λ pos. opened_as pos (record w { sys = k.at w.sys n })) same)

  pub sys_lseek-end :
      (w : World S)
      → sys_lseek syscall (call3 r k.fd 0 2) w
        ≡ (seek (u32 s.size) >>= λ pos. opened_as pos (record w { sys = k.at w.sys s.size }))
  unfolding sys_lseek call_number
  sys_lseek-end w =
      rw (k.end_call (record (call3 r k.fd 0 2) { rax = 8 }) w refl refl refl refl)
        (sought s.size (call3 r k.fd 0 2) (record w { sys = k.at w.sys s.size }))

  -- What a read leaves.
  abbrev pub after_read : (a count : ℕ) → World S → World S
  after_read a count w =
      let bs = s.read (k.offset w.sys) count in
      record w { mem = put_list w.mem a bs; sys = k.at w.sys (k.offset w.sys + length bs) }

  pub sys_read-Serves :
      (a count : ℕ) (w : World S)
      → sys_read syscall (call3 r k.fd a count) w ≡ ok (after_read a count w)
  unfolding sys_read exit_if call_number
  sys_read-Serves a count w =
      let (same, small) =
        small_int (length (s.read (k.offset w.sys) count)) (k.read_int (k.offset w.sys) count) in
      rw (k.read_call (record (call3 r k.fd a count) { rax = 0 }) w refl refl, same, small) refl

  mapped_at :
      (o : Bool) (r : Registers) (w w' : World S)
      → ((if o then opened_as k.page w else opened_as (2 ^ 64 - 12) w') >>= λ t.
          exit_if syscall (negative_long t.0) 9 r t.1 >>= λ w2. opened_as t.0 w2)
        ≡ (if o then ok (k.page, w) else exited 9)
  unfolding exit_if
  mapped_at true r w w' = rw (small_long k.page k.page_long) refl
  mapped_at false r w w' = rw (ends 9 r w') refl

  pub sys_mmap-Serves :
      (n b c : ℕ) (w : World S)
      → sys_mmap syscall (call3 r n b c) w ≡ (
          if s.has_memory n
          then ok (k.page, record w { mem = cleared w.mem k.page n })
          else exited 9)
  unfolding sys_mmap call_number
  sys_mmap-Serves n b c w = rw (k.mmap_call (mmap_registers n b c) w refl refl) (
      mapped_at (s.has_memory n) (mmap_registers n b c) (record w { mem = cleared w.mem k.page n })
        w)
    where
      mmap_registers : (n b c : ℕ) → Registers
      mmap_registers n b c = record {
        rax = 9;
        rdi = 0;
        rsi = n;
        rdx = b;
        r10 = c;
        r8 = 2 ^ 32 - 1;
        r9 = 0;
      }

  protected :
      (o : Bool) (r : Registers) (w : World S)
      → exit_if syscall (negative_int (u32 (if o then 0 else 2 ^ 64 - 13))) 8 r w
        ≡ (if o then ok w else exited 8)
  unfolding exit_if
  protected true r w = refl
  protected false r w = rw (ends 8 r w) refl

  pub sys_mprotect-Serves :
      (a n b : ℕ) (w : World S)
      → sys_mprotect syscall (call3 r a n b) w ≡ (if s.protects n then ok w else exited 8)
  unfolding sys_mprotect call_number
  sys_mprotect-Serves a n b w =
      rw (k.protect_call (record (call3 r a n b) { rax = 10 }) w refl)
        (protected (s.protects n) (call3 r a n b) w)

  pub sys_close-Serves : (b c : ℕ) (w : World S) → sys_close syscall (call3 r k.fd b c) w ≡ ok w
  unfolding sys_close call_number
  sys_close-Serves b c w =
      let (_, e) = k.close_call (record (call3 r k.fd b c) { rax = 3 }) w refl refl in rw e refl
