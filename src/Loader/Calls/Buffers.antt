-- ===== src/Loader/Calls/Buffers.antt =====
-- What is read from buffers that have been filled.
use weeper_vm.Base.{
  ℕ, zero, suc, ◌+◌, ◌-◌, ◌<◌, ◌≤◌, ◌≡◌, ◌⊎◌, inl, inr, refl, sym, ap, ap₂, ◌∙◌, arith, Bool, true,
  false, List, [], ◌∷◌, length, ltb, leb, ◌==◌, if◌then◌else◌,
}
use weeper_vm.Machine.{Bytes, update}
use weeper_vm.Strings.{proc_self_exe, high_first, low_first, ror32, c_string}
use weeper_vm.Loader.{mapped}
use weeper_vm.Loader.Calls.{bytes_of, with_path}

-- What a read puts into memory.
abbrev pub put_list : Bytes → ℕ → List ℕ → Bytes
put_list mem a [] = mem
put_list mem a (b ∷ bs) = put_list (update mem a b) (a + 1) bs

update_other : (mem : Bytes) (a x b : ℕ) → (a ≡ b → ⊥) → update mem a x b ≡ mem b
update_other mem a x b h = ground arith

update_same : (mem : Bytes) (a x : ℕ) → update mem a x a ≡ x
update_same mem a x = ground arith

apart : (a b n : ℕ) → (b < a) ⊎ (a + suc n ≤ b) → a ≡ b → ⊥
apart a b n (inl l) e = absurd (omega (arith, l, e))
apart a b n (inr l) e = absurd (omega (arith, l, e))

further : (a b n : ℕ) → (b < a) ⊎ (a + suc n ≤ b) → (b < a + 1) ⊎ (a + 1 + n ≤ b)
further a b n (inl l) = inl (omega (arith, l))
further a b n (inr l) = inr (omega (arith, l))

pub put_list-other :
    (mem : Bytes) (a : ℕ) (bs : List ℕ) (b : ℕ)
    → (b < a) ⊎ (a + length bs ≤ b)
    → put_list mem a bs b ≡ mem b
put_list-other mem a [] b h = refl
put_list-other mem a (x ∷ bs) b h =
    put_list-other (update mem a x) (a + 1) bs b (further a b (length bs) h)
    ∙ update_other mem a x b (apart a b (length bs) h)

pub bytes_of-same :
    (n : ℕ) (mem mem' : Bytes) (a : ℕ)
    → ((b : ℕ) → a ≤ b → b < a + n → mem' b ≡ mem b)
    → bytes_of n mem' a ≡ bytes_of n mem a
bytes_of-same zero mem mem' a h = refl
bytes_of-same (suc n) mem mem' a h =
    ap₂ (λ (x : ℕ) (xs : List ℕ). x ∷ xs) (h a (omega arith) (omega arith))
      (bytes_of-same n mem mem' (a + 1) (λ b lo hi. h b (omega arith) (omega arith)))

-- A read of no more than there is room for, into memory that is zero.
pub bytes_of-mapped :
    (n : ℕ) (mem : Bytes) (a : ℕ) (bs : List ℕ)
    → length bs ≤ n
    → ((b : ℕ) → a + length bs ≤ b → b < a + n → mem b ≡ 0)
    → bytes_of n (put_list mem a bs) a ≡ mapped n bs
bytes_of-mapped zero mem a bs fits h = refl
bytes_of-mapped (suc n) mem a [] fits h =
    ap₂ (λ (x : ℕ) (xs : List ℕ). x ∷ xs) (h a (omega arith) (omega arith))
      (bytes_of-mapped n mem (a + 1) [] (omega arith) (λ b lo hi. h b (omega arith) (omega arith)))
bytes_of-mapped (suc n) mem a (x ∷ bs) fits h =
    ap₂ (λ (x : ℕ) (xs : List ℕ). x ∷ xs)
      (put_list-other (update mem a x) (a + 1) bs a (inl (omega arith)) ∙ update_same mem a x)
      (bytes_of-mapped n (update mem a x) (a + 1) bs (omega (arith, fits)) (λ b lo hi.
        update_other mem a x b (λ e. absurd (omega (arith, lo, e)))
        ∙ h b (omega arith) (omega arith)))

mapped_full : (bs : List ℕ) → mapped (length bs) bs ≡ bs
mapped_full [] = refl
mapped_full (x ∷ bs) = ap (λ xs. x ∷ xs) (mapped_full bs)

-- A read that fills the buffer.
pub bytes_of-put_list :
    (n : ℕ) (mem : Bytes) (a : ℕ) (bs : List ℕ)
    → length bs ≡ n
    → bytes_of n (put_list mem a bs) a ≡ bs
bytes_of-put_list n mem a bs e =
    bytes_of-mapped n mem a bs (omega (arith, e)) (λ b lo hi. absurd (omega (arith, e, lo, hi)))
    ∙ ap (λ (k : ℕ). mapped k bs) (sym e)
    ∙ mapped_full bs

-- The path is the same whatever the buffer held, and stands in memory.
c_string-same :
    (room : ℕ) (b b' : Bytes) (i : ℕ)
    → ((j : ℕ) → i ≤ j → j < i + room → b' j ≡ b j)
    → c_string room b' i ≡ c_string room b i
c_string-same zero b b' i h = refl
c_string-same (suc room) b b' i h =
    ap₂ (λ (x : ℕ) (xs : List ℕ). if x == 0 then [] else x ∷ xs) (h i (omega arith) (omega arith))
      (c_string-same room b b' (i + 1) (λ j lo hi. h j (omega arith) (omega arith)))

any_buffer :
    (sse : Bool) (buf : Bytes)
    → c_string 16 (proc_self_exe sse buf 0x959e8e02) 0
      ≡ c_string 16 (proc_self_exe sse (λ i. 0) 0x959e8e02) 0
unfolding proc_self_exe high_first low_first ror32
any_buffer true buf = refl
any_buffer false buf = refl

with_path-in :
    (mem : Bytes) (a : ℕ) (buf : Bytes) (i : ℕ) → i < 16 → with_path mem a buf (a + i) ≡ buf i
with_path-in mem a buf i h =
    let lo : leb a (a + i) ≡ true = ground arith in
    let hi : ltb (a + i) (a + 16) ≡ true = ground arith in
    let off : a + i - a ≡ i = omega arith in rw (lo, hi, off) refl

pub c_string-with_path :
    (sse : Bool) (mem : Bytes) (a : ℕ)
    → (let buf = proc_self_exe sse (λ i. mem (a + i)) 0x959e8e02 in
        c_string 16 (λ i. with_path mem a buf (a + i)) 0
        ≡ c_string 16 (proc_self_exe sse (λ i. 0) 0x959e8e02) 0)
c_string-with_path sse mem a =
    let buf = proc_self_exe sse (λ i. mem (a + i)) 0x959e8e02 in
    c_string-same 16 buf (λ i. with_path mem a buf (a + i)) 0
      (λ j lo hi. with_path-in mem a buf j (omega (arith, hi)))
    ∙ any_buffer sse (λ i. mem (a + i))
