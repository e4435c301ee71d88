-- ===== src/Tests/Serve.antt =====
-- A system that serves a file, on which the functions of syscall.c and the loader are run.
use weeper_vm.Base.{
  ℕ, zero, suc, ◌+◌, ◌-◌, ◌^◌, ◌≤◌, ◌≡◌, refl, arith, inl, true, List, [], ◌∷◌, some, Run, ok,
  exited, ◌>>=◌, u32, length, take, drop, ◌==◌, if◌then◌else◌,
}
use weeper_vm.Strings.{c_string}
use weeper_vm.Syscalls.{Registers, World, call_number, sys_print, sys_sleep}
use weeper_vm.Syscalls.Wrapper.{of_lseek, run, run-reply}
use weeper_vm.Syscalls.Print.{sys_print-TextAt}
use weeper_vm.Syscalls.Sleep.{with_timespec, get_little, Extends, sys_sleep-Extends}
use weeper_vm.Loader.{load_vcode, compile_file, cipher_len, to_bytes}
use weeper_vm.Loader.Calls.{BufferPlaces, bytes_of, load_by_calls}
use weeper_vm.Loader.Calls.Buffers.{put_list}
use weeper_vm.Loader.Calls.Serves.{Serves, cleared}
use weeper_vm.Loader.Calls.Refine.{load_by_calls-load_vcode}
use weeper_vm.Tests.Program.{own_file, system}

length-take : (n : ℕ) (xs : List ℕ) → length (take n xs) ≤ n
length-take zero xs = omega arith
length-take (suc n) [] = omega arith
length-take (suc n) (x ∷ xs) = omega (arith, length-take n xs)

length-take_all : (n : ℕ) (xs : List ℕ) → length (take n xs) ≤ length xs
length-take_all zero xs = omega arith
length-take_all (suc n) [] = omega arith
length-take_all (suc n) (x ∷ xs) = omega (arith, length-take_all n xs)

length-drop_all : (n : ℕ) (xs : List ℕ) → length (drop n xs) ≤ length xs
length-drop_all zero xs = omega arith
length-drop_all (suc n) [] = omega arith
length-drop_all (suc n) (x ∷ xs) = omega (arith, length-drop_all n xs)

length-take_full : (n : ℕ) (xs : List ℕ) → n ≤ length xs → length (take n xs) ≡ n
length-take_full zero xs h = refl
length-take_full (suc n) [] h = absurd (omega (arith, h))
length-take_full (suc n) (x ∷ xs) h = omega (arith, length-take_full n xs (omega (arith, h)))

length-drop : (n : ℕ) (xs : List ℕ) → length (drop n xs) + n ≡ length xs + (n - length xs)
length-drop zero xs = omega arith
length-drop (suc n) [] = omega arith
length-drop (suc n) (x ∷ xs) = omega (arith, length-drop n xs)

abbrev read_file : ℕ → ℕ → List ℕ
read_file offset count = take count (drop offset own_file)

-- Descriptor 3, mappings at 0x20000, and the offset of the file as the rest of the system.
linux : Registers → World ℕ → Run (ℕ × World ℕ)
linux r w =
    if r.rax == 2
    then ok (
      if system.opens (c_string 16 (λ i. w.mem (r.rdi + i)) 0) then 3 else 2 ^ 64 - 2,
      record w { sys = 0 },
    )
    else if r.rax == 8
    then (if r.rdx == 2
        then ok (length own_file, record w { sys = length own_file })
        else ok (r.rsi, record w { sys = r.rsi }))
    else if r.rax == 0
    then (let bs = read_file w.sys r.rdx in
        ok (length bs, record w { mem = put_list w.mem r.rsi bs; sys = w.sys + length bs }))
    else if r.rax == 9
    then (if system.has_memory r.rsi
        then ok (0x20000, record w { mem = cleared w.mem 0x20000 r.rsi })
        else ok (2 ^ 64 - 12, w))
    else if r.rax == 10
    then ok (if system.protects r.rsi then 0 else 2 ^ 64 - 13, w)
    else if r.rax == 60
    then exited (u32 r.rdi)
    else ok (0, w)

linux-Serves : Serves system linux
unfolding linux compile_file cipher_len to_bytes
linux-Serves = record {
  fd = 3;
  page = 0x20000;
  offset = λ n. n;
  at = λ x n. n;
  offset-at = λ x n. refl;
  fd_int = omega arith;
  page_long = omega arith;
  size_long = omega arith;
  read_short = λ n count. length-take count (drop n own_file);
  read_int =
      λ n count. omega (arith, length-take_all count (drop n own_file), length-drop_all n own_file);
  read_full = λ n count h k.
      length-take_full count (drop n own_file) (omega (arith, h, length-drop n own_file));
  exit_call = λ r w e. rw e refl;
  open_call = λ r w e. rw e refl;
  seek_call = λ r w e fd set near. rw (e, set) refl;
  end_call = λ r w e fd end start. rw (e, end) refl;
  read_call = λ r w e fd. rw e refl;
  mmap_call = λ r w e fd. rw e refl;
  protect_call = λ r w e. rw e refl;
  close_call = λ r w e fd. (0, rw e refl);
}

abbrev registers : Registers
registers = record { rax = 7; rdi = 3; rsi = 4; rdx = 2; r10 = 5; r8 = 6; r9 = 1 }

abbrev frame : BufferPlaces
frame = record { path_at = 0x1000; len_at = 0x1010; elf_at = 0x1018; sse = true }

abbrev world : World ℕ
world = record { mem = λ a. 7; sys = 0 }

load_by_calls-load_vcode_example :
    (load_by_calls linux frame registers world >>= λ (vcode, n, w). ok (bytes_of n w.mem vcode))
    ≡ load_vcode system
load_by_calls-load_vcode_example =
    load_by_calls-load_vcode linux frame registers world linux-Serves refl (inl (omega arith))

-- LSEEK to the end of the file.
run-reply_example :
    run linux of_lseek registers world
    ≡ ok (some (length own_file), record world { sys = length own_file })
unfolding linux call_number compile_file cipher_len to_bytes
run-reply_example =
    run-reply linux of_lseek registers world (record world { sys = length own_file })
      (length own_file) (λ r w e. rw e refl) refl (inl (omega arith))

-- "hi", at 0x100
abbrev greeting : World ℕ
greeting = record {
  mem = λ a. if a == 0x100 then 0x68 else if a == 0x101 then 0x69 else 0;
  sys = 0;
}

sys_print-TextAt_example : sys_print linux 3 0x100 registers greeting ≡ (
    linux (record registers { rax = 1; rdi = 1; rsi = 0x100; rdx = 2 }) greeting >>= λ (x, w').
    ok (u32 x, w'))
sys_print-TextAt_example =
    sys_print-TextAt linux 3 0x100 (0x68 ∷ 0x69 ∷ []) registers greeting
      (refl, (λ e. absurd (omega (arith, e))), (refl, (λ e. absurd (omega (arith, e))), refl))
      (omega arith)

-- A second, less one nanosecond: the `int` is -1.
sys_sleep-Extends_example :
    (let filled = with_timespec greeting.mem 0x200 1 0xffffffff in
      (sys_sleep linux 0x200 1 0xffffffff registers greeting ≡ (
        linux
          (record registers { rax = 35; rdi = 0x200; rsi = 0; rdx = 0 })
          (record greeting { mem = filled })
        >>= λ (_, w'). ok w'))
      × Extends 1 (get_little 8 filled 0x200)
      × Extends 0xffffffff (get_little 8 filled 0x208)
      × (filled 0x100 ≡ 0x68))
sys_sleep-Extends_example =
    sys_sleep-Extends linux 0x200 1 0xffffffff 0x100 registers greeting (omega arith) (omega arith)
      (inl (omega arith))
