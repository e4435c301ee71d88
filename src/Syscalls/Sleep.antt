-- ===== src/Syscalls/Sleep.antt =====
-- `sys_sleep`: the time that it asks for.
use weeper_vm.Base.{
  ℕ, zero, suc, ◌+◌, ◌*◌, ◌/◌, ◌%◌, ◌^◌, ◌<◌, ◌≤◌, ◌≡◌, ◌⊎◌, inl, inr, refl, sym, subst, ◌∙◌, ap₂,
  arith, Run, ok, ◌>>=◌,
}
use weeper_vm.Machine.{Bytes, update}
use weeper_vm.Syscalls.{World, Registers, call_number, put_little, extend, sys_sleep}

-- The value of `n` bytes, the lowest first.
abbrev pub get_little : ℕ → Bytes → ℕ → ℕ
get_little zero mem a = 0
get_little (suc n) mem a = mem a + 256 * get_little n mem (a + 1)

-- The 64 bits of the number that an `int` stands for.
abbrev pub Extends : ℕ → ℕ → Type 0
Extends x y = ((x < 2 ^ 31) × (y ≡ x)) ⊎ ((2 ^ 31 ≤ x) × (y + 2 ^ 32 ≡ x + 2 ^ 64))

update_other : (mem : Bytes) (a x b : ℕ) → (a ≡ b → ⊥) → update mem a x b ≡ mem b
update_other mem a x b h = ground arith

update_same : (mem : Bytes) (a x : ℕ) → update mem a x a ≡ x
update_same mem a x = ground arith

extend-Extends : (x : ℕ) → x < 2 ^ 32 → Extends x (extend x)
unfolding extend
extend-Extends x h = ground arith

put_little-other :
    (n : ℕ) (mem : Bytes) (a x b : ℕ) → (b < a) ⊎ (a + n ≤ b) → put_little n mem a x b ≡ mem b
unfolding put_little
put_little-other zero mem a x b h = refl
put_little-other (suc n) mem a x b h =
    put_little-other n (update mem a (x % 256)) (a + 1) (x / 256) b (further h)
    ∙ update_other mem a (x % 256) b (apart h)
  where
    further : (b < a) ⊎ (a + suc n ≤ b) → (b < a + 1) ⊎ (a + 1 + n ≤ b)
    further (inl l) = inl (omega (arith, l))
    further (inr l) = inr (omega (arith, l))

    apart : (b < a) ⊎ (a + suc n ≤ b) → a ≡ b → ⊥
    apart (inl l) e = absurd (omega (arith, l, e))
    apart (inr l) e = absurd (omega (arith, l, e))

smaller : (n x : ℕ) → x < 256 ^ suc n → x / 256 < 256 ^ n
smaller n x h = omega arith

put_little-get :
    (n : ℕ) (mem : Bytes) (a x : ℕ) → x < 256 ^ n → get_little n (put_little n mem a x) a ≡ x
unfolding put_little
put_little-get zero mem a x h = omega (arith, h)
put_little-get (suc n) mem a x h =
    let mem' = update mem a (x % 256) in
    let first : put_little n mem' (a + 1) (x / 256) a ≡ x % 256 =
      put_little-other n mem' (a + 1) (x / 256) a (inl (omega arith))
      ∙ update_same mem a (x % 256) in
    let rest : get_little n (put_little n mem' (a + 1) (x / 256)) (a + 1) ≡ x / 256 =
      put_little-get n mem' (a + 1) (x / 256) (smaller n x h) in
    omega (arith, first, rest)

-- What is read depends on the bytes alone.
get_little-same :
    (n : ℕ) (mem mem' : Bytes) (a : ℕ)
    → ((b : ℕ) → a ≤ b → b < a + n → mem' b ≡ mem b)
    → get_little n mem' a ≡ get_little n mem a
get_little-same zero mem mem' a h = refl
get_little-same (suc n) mem mem' a h =
    ap₂ (λ (x y : ℕ). x + 256 * y) (h a (omega arith) (omega arith))
      (get_little-same n mem mem' (a + 1) (λ b lo hi. h b (omega arith) (omega arith)))

extend-lt : (x : ℕ) → x < 2 ^ 32 → extend x < 2 ^ 64
unfolding extend
extend-lt x h = ground arith

-- Memory with the structure filled.
abbrev pub with_timespec : Bytes → (req sec nano : ℕ) → Bytes
with_timespec mem req sec nano =
    put_little 8 (put_little 8 mem req (extend sec)) (req + 8) (extend nano)

outside :
    (mem : Bytes) (req sec nano b : ℕ)
    → (b < req) ⊎ (req + 16 ≤ b)
    → with_timespec mem req sec nano b ≡ mem b
outside mem req sec nano b h =
    put_little-other 8 (put_little 8 mem req (extend sec)) (req + 8) (extend nano) b (after h)
    ∙ put_little-other 8 mem req (extend sec) b (before h)
  where
    after : (b < req) ⊎ (req + 16 ≤ b) → (b < req + 8) ⊎ (req + 8 + 8 ≤ b)
    after (inl l) = inl (omega (arith, l))
    after (inr l) = inr (omega (arith, l))

    before : (b < req) ⊎ (req + 16 ≤ b) → (b < req) ⊎ (req + 8 ≤ b)
    before (inl l) = inl l
    before (inr l) = inr (omega (arith, l))

-- `sys_sleep` asks for the time that it is given: the one system call that it makes is NANOSLEEP of
-- the structure, with no second one, in a memory in which the seconds and the nanoseconds of the
-- structure, read as the kernel reads them, are the signed numbers that the two `int` parameters
-- stand for, and any byte `b` outside the structure is as before.
pub sys_sleep-Extends :
    {S : Type 0} (syscall : Registers → World S → Run (ℕ × World S)) (req sec nano b : ℕ)
    (r : Registers) (w : World S)
    → sec < 2 ^ 32
    → nano < 2 ^ 32
    → (b < req) ⊎ (req + 16 ≤ b)
    → (let filled = with_timespec w.mem req sec nano in
        (sys_sleep syscall req sec nano r w ≡ (
          syscall (record r { rax = 35; rdi = req; rsi = 0; rdx = 0 }) (record w { mem = filled })
          >>= λ (_, w'). ok w'))
        × Extends sec (get_little 8 filled req)
        × Extends nano (get_little 8 filled (req + 8))
        × (filled b ≡ w.mem b))
unfolding sys_sleep call_number
sys_sleep-Extends syscall req sec nano b r w hs hn hb =
    let one = put_little 8 w.mem req (extend sec) in
    let two = with_timespec w.mem req sec nano in
    let low : get_little 8 two req ≡ extend sec =
      get_little-same 8 one two req
        (λ b lo hi. put_little-other 8 one (req + 8) (extend nano) b (inl hi))
      ∙ put_little-get 8 w.mem req (extend sec) (omega (arith, extend-lt sec hs)) in
    let high : get_little 8 two (req + 8) ≡ extend nano =
      put_little-get 8 one (req + 8) (extend nano) (omega (arith, extend-lt nano hn)) in
    (
      refl,
      subst (Extends sec) (sym low) (extend-Extends sec hs),
      subst (Extends nano) (sym high) (extend-Extends nano hn),
      outside w.mem req sec nano b hb,
    )
