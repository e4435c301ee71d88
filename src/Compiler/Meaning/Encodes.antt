-- ===== src/Compiler/Meaning/Encodes.antt =====
-- What the parsers make of each kind of operand.
use weeper_vm.Base.{
  ℕ, zero, suc, ◌+◌, ◌-◌, ◌*◌, ◌^◌, ◌≤◌, ◌<◌, ◌≡◌, refl, sym, subst, ap, ◌∙◌, arith, bit_or, Option,
  some, none, ◌<<<◌, ltb, false,
}
use weeper_vm.Base.Bits.{or_join}
use weeper_vm.Operand.{op_reg, op_mem, op_imm}
use weeper_vm.Compiler.{
  Parsed, bit_length, byte_length, parse_register, parse_immediate, register_memory,
  immediate_memory, compound_memory, spoofed, parse_memory,
}
use weeper_vm.Compiler.Length.{byte_length-pos, byte_length-fits, byte_length-eq, byte_length-20}
use weeper_vm.Compiler.Meaning.{
  Source, reg, imm, mem_sum, mem_disp, mem_base, mem_at, parse_operand, IsSource,
}
use weeper_vm.Compiler.Meaning.Memory.{sum_code}

-- An operand with this type, size, length less one and value.
abbrev pub Has : Parsed → (t v l x : ℕ) → Type 0
Has p t v l x = (p.t ≡ t) × (p.v ≡ v) × (p.l ≡ l) × (p.x ≡ x)

-- A displacement behind a header byte.
abbrev pub Displaced : Parsed → (v bv br d : ℕ) → Type 0
Displaced p v bv br d =
    Has p op_mem v p.l ((128 + bv * 16 + br) * 256 ^ p.l + d)
    × (1 ≤ p.l)
    × (p.l ≤ 3)
    × (d < 256 ^ p.l)

abbrev pub Encodes : Source → Parsed → Type 0
Encodes (reg v r) p = Has p op_reg v 0 r
Encodes (imm v x) p = Has p op_imm v p.l x × (p.l < 4) × (x < 256 ^ (p.l + 1))
Encodes (mem_sum v bv br dv dr) p = Has p op_mem v 1 (sum_code bv br dv dr)
Encodes (mem_disp v bv br dv d) p = Displaced p v bv br d
Encodes (mem_base v bv br) p = Displaced p v bv br 0
Encodes (mem_at v av a) p = Has p op_mem v p.l a × (1 ≤ p.l) × (p.l ≤ 3) × (a < 256 ^ p.l)

immediate-Has :
    (v x : ℕ) (p : Parsed)
    → parse_immediate v x ≡ some p
    → Has p op_imm v (byte_length x - 1) x × (byte_length x ≤ 4)
unfolding parse_immediate
immediate-Has v x p e = ground arith

sum-Has :
    (v bv br dv dr : ℕ)
    → bv < 4
    → br < 16
    → dv < 4
    → dr < 16
    → Has
        (register_memory v (parse_register bv br) (parse_register dv dr))
        op_mem
        v
        1
        (sum_code bv br dv dr)
unfolding register_memory parse_register
sum-Has v bv br dv dr hbv hbr hdv hdr = (
  refl,
  refl,
  refl,
  ground (
    arith,
    or_join 12 3 (bv * 1024),
    or_join 10 (12 + bv) (dv * 256),
    or_join 8 (48 + bv * 4 + dv) (br * 16),
    or_join 4 (768 + bv * 64 + dv * 16 + br) dr,
  ),
)

header_byte :
    (bv br : ℕ) → bv < 4 → br < 16 → bit_or (bit_or 0b10000000 (bv <<< 4)) br ≡ 128 + bv * 16 + br
header_byte bv br hbv hbr = ground (arith, or_join 6 2 (bv * 16), or_join 4 (8 + bv) br)

-- A header byte above the bytes of a displacement.
above_disp :
    (k h d : ℕ)
    → 1 ≤ k
    → k ≤ 3
    → 128 ≤ h
    → h < 256
    → d < 256 ^ k
    → (bit_or (h <<< (8 * k)) d ≡ h * 256 ^ k + d) × (byte_length (h * 256 ^ k + d) ≡ suc k)
above_disp zero h d lo hi a b c = absurd (omega arith)
above_disp (suc zero) h d lo hi a b c =
    (or_join 8 h d c, byte_length-eq 1 (h * 256 + d) lo hi (omega arith) (omega arith))
above_disp (suc (suc zero)) h d lo hi a b c =
    (or_join 16 h d c, byte_length-eq 2 (h * 65536 + d) lo hi (omega arith) (omega arith))
above_disp (suc (suc (suc zero))) h d lo hi a b c =
    (or_join 24 h d c, byte_length-eq 3 (h * 16777216 + d) lo hi (omega arith) (omega arith))
above_disp (suc (suc (suc (suc k)))) h d lo hi a b c = absurd (omega arith)

immediate_memory-short :
    (v bv br : ℕ) (disp p : Parsed)
    → immediate_memory v (parse_register bv br) disp ≡ some p
    → bit_length disp.x ≤ 20
unfolding immediate_memory
immediate_memory-short v bv br disp p e = ground arith

leb-false20 : (d : ℕ) → bit_length d ≤ 20 → ltb 20 (bit_length d) ≡ false
leb-false20 d h = ground arith

some-injective : {A : Type 0} {a b : A} → some a ≡ some b → a ≡ b
some-injective e = cc

-- The record that the parser builds, in terms of the bytes of the displacement.
disp-record :
    (v bv br : ℕ) (disp : Parsed)
    → bv < 4
    → br < 16
    → bit_length disp.x ≤ 20
    → (let k = byte_length disp.x in
        immediate_memory v (parse_register bv br) disp
        ≡ some (record { t = op_mem; v = v; l = k; x = (128 + bv * 16 + br) * 256 ^ k + disp.x }))
unfolding immediate_memory parse_register
disp-record v bv br disp hbv hbr short =
    let k = byte_length disp.x in
    let (small, shl) = byte_length-20 disp.x short in
    let (joined, bytes) =
      above_disp k (128 + bv * 16 + br) disp.x (byte_length-pos disp.x) small (omega arith)
        (omega arith) (byte_length-fits disp.x (omega (arith, small))) in
    rw (leb-false20 disp.x short, shl, header_byte bv br hbv hbr, joined, bytes)
      (ap
        (λ (l : ℕ).
          some (record { t = op_mem; v = v; l = l; x = (128 + bv * 16 + br) * 256 ^ k + disp.x }))
        (omega arith))

disp-Displaced :
    (v bv br : ℕ) (disp p : Parsed)
    → bv < 4
    → br < 16
    → immediate_memory v (parse_register bv br) disp ≡ some p
    → Displaced p v bv br disp.x
disp-Displaced v bv br disp p hbv hbr e =
    let short : bit_length disp.x ≤ 20 = immediate_memory-short v bv br disp p e in
    let small = (byte_length-20 disp.x short).0 in
    subst (λ q. Displaced q v bv br disp.x)
      (some-injective (sym (disp-record v bv br disp hbv hbr short) ∙ e))
      (
        (refl, refl, refl, refl),
        byte_length-pos disp.x,
        small,
        byte_length-fits disp.x (omega (arith, small)),
      )

-- An address that is a number has a byte before its own.
at-Encodes :
    (v av a : ℕ) (b p : Parsed)
    → parse_immediate av a ≡ some b
    → parse_memory v b none ≡ some p
    → Has p op_mem v p.l a × (1 ≤ p.l) × (p.l ≤ 3) × (a < 256 ^ p.l)
unfolding parse_memory spoofed
at-Encodes v av a b p eb e =
    let ((bt, bv, bl, bx), fits) = immediate-Has av a b eb in
    let (l, x, short, same) = at_parts v a b p bt bx e in
    let small = (byte_length-20 a short).0 in
    let len : p.l ≡ byte_length a = omega (arith, byte_length-pos a, l, bl) in
    (
      (same.0, same.1, refl, x),
      omega (arith, byte_length-pos a, len),
      omega (arith, small, len),
      subst (λ (n : ℕ). a < 256 ^ n) (sym len) (byte_length-fits a fits),
    )
  where
    at_parts :
        (v a : ℕ) (b p : Parsed)
        → b.t ≡ op_imm
        → b.x ≡ a
        → parse_memory v b none ≡ some p
        → (p.l ≡ b.l + 1) × (p.x ≡ a) × (bit_length a ≤ 20) × ((p.t ≡ op_mem) × (p.v ≡ v))
    at_parts v a b p t x e = ground arith

-- The first parser of two has returned.
some_first :
    (o : Option Parsed) (f : Parsed → Option Parsed) (p : Parsed)
    → (elim o [ none ↦ none | some q ↦ f q ]) ≡ some p
    → (q : Parsed) × (o ≡ some q) × (f q ≡ some p)
some_first none f p e = cc
some_first (some q) f p e = (q, refl, e)

compound-immediate :
    (v bv br : ℕ) (q : Parsed)
    → q.t ≡ op_imm
    → compound_memory v (parse_register bv br) q ≡ immediate_memory v (parse_register bv br) q
unfolding compound_memory parse_register
compound-immediate v bv br q e = simp e refl

-- Whatever the parsers return for an operand of the language encodes it.
pub parse_operand-Encodes :
    (s : Source) (p : Parsed) → IsSource s → parse_operand s ≡ some p → Encodes s p
unfolding parse_operand parse_register parse_memory spoofed compound_memory
parse_operand-Encodes (reg v r) p h e = ground arith
parse_operand-Encodes (imm v x) p h e =
    let (has, fits) = immediate-Has v x p e in
    let len : byte_length x ≡ p.l + 1 = omega (arith, has, byte_length-pos x) in
    (
      (has.0, has.1, refl, has.3),
      omega (arith, len, fits),
      subst (λ (n : ℕ). x < 256 ^ n) len (byte_length-fits x fits),
    )
parse_operand-Encodes (mem_sum v bv br dv dr) p h e =
    subst (λ q. Has q op_mem v 1 (sum_code bv br dv dr)) (some-injective e)
      (sum-Has v bv br dv dr (omega arith) h.2 (omega arith) (omega arith))
parse_operand-Encodes (mem_disp v bv br dv d) p h e =
    let (q, eq, e') =
      some_first (parse_immediate dv d) (λ q. parse_memory v (parse_register bv br) (some q)) p e in
    let (has, _) = immediate-Has dv d q eq in
    subst (λ (x : ℕ). Displaced p v bv br x) (omega (arith, has))
      (disp-Displaced v bv br q p (omega arith) h.2 (sym (compound-immediate v bv br q has.0) ∙ e'))
parse_operand-Encodes (mem_base v bv br) p h e =
    disp-Displaced v bv br (record { t = op_imm; v = 1; l = 1; x = 0 }) p (omega arith)
      (omega arith) e
parse_operand-Encodes (mem_at v av a) p h e =
    let (q, eq, e') = some_first (parse_immediate av a) (λ q. parse_memory v q none) p e in
    at-Encodes v av a q p eq e'
