-- ===== src/Compiler/Meaning/Operands.antt =====
-- The machine reads an operand as what it means.
use weeper_vm.Base.{
  ℕ, zero, suc, ◌+◌, ◌*◌, ◌%◌, ◌^◌, ◌≤◌, ◌<◌, ◌≡◌, refl, subst, ap, ap₂, ◌∙◌, arith, ◌≢◌, List, [],
  ◌∷◌, ◌++◌, ok, some, u32,
}
use weeper_vm.Machine.{Machine}
use weeper_vm.Memory.Store.{size_of, load}
use weeper_vm.Operand.{
  Operand, op_none, op_reg, op_mem, op_imm, get_operand_data, get_operand_data_reg,
  get_operand_data_mem, get_operand_data_imm, calculate_memory_offset,
}
use weeper_vm.Operand.Select.{get_operand_data-eq-value}
use weeper_vm.Handler.Arith.Reg.{IsSize, span}
use weeper_vm.Invariant.{IsWf}
use weeper_vm.Emulate.Decode.Header.{operand_of}
use weeper_vm.Compiler.{Parsed, operand_bytes, spec_of, big_bytes}
use weeper_vm.Compiler.Bytes.{BytesAt}
use weeper_vm.Compiler.Meaning.{
  Source, reg, imm, mem_sum, mem_disp, mem_base, mem_at, parse_operand, part, meaning, IsSource,
}
use weeper_vm.Compiler.Meaning.Encodes.{Displaced, Encodes, parse_operand-Encodes}
use weeper_vm.Compiler.Meaning.Immediate.{get_operand_data_imm-at}
use weeper_vm.Compiler.Meaning.Register.{get_operand_data_reg-at}
use weeper_vm.Compiler.Meaning.Memory.{sum_code, offset-sum, offset-disp, offset-at}
use weeper_vm.Compiler.Meaning.Load.{mem-load}

-- The type selects the reader.
module _ (m : Machine) (trash : ℕ) (op : Operand) where
  reads-reg : op.t ≡ op_reg → get_operand_data m trash op ≡ get_operand_data_reg m op
  reads-reg e = get_operand_data-eq-value m trash op (omega arith) ∙ simp e refl

  reads-mem : op.t ≡ op_mem → get_operand_data m trash op ≡ get_operand_data_mem m op
  reads-mem e = get_operand_data-eq-value m trash op (omega arith) ∙ simp e refl

  reads-imm : op.t ≡ op_imm → get_operand_data m trash op ≡ get_operand_data_imm m op
  reads-imm e = get_operand_data-eq-value m trash op (omega arith) ∙ simp e refl

-- The bytes of an operand that is there are those of its value, which fits them.
pub operand_bytes-big :
    (p : Parsed)
    → p.t ≢ op_none
    → (ys : List ℕ) → operand_bytes p ≡ some ys
    → ys ≡ big_bytes (p.l + 1) p.x
unfolding operand_bytes
operand_bytes-big p there ys e = ground arith

-- The last byte but those of the value: a displacement below a header byte.
big_bytes-above :
    (k h d : ℕ)
    → 1 ≤ k
    → k ≤ 3
    → h < 256
    → d < 256 ^ k
    → big_bytes (suc k) (h * 256 ^ k + d) ≡ h ∷ big_bytes k d
big_bytes-above zero h d lo hi hh hd = absurd (omega arith)
big_bytes-above (suc zero) h d lo hi hh hd = ground arith
big_bytes-above (suc (suc zero)) h d lo hi hh hd = ground arith
big_bytes-above (suc (suc (suc zero))) h d lo hi hh hd = ground arith
big_bytes-above (suc (suc (suc (suc k)))) h d lo hi hh hd = absurd (omega arith)

same_bytes : (l k x y : ℕ) → l ≡ k → x ≡ y → big_bytes (l + 1) x ≡ big_bytes (suc k) y
same_bytes l k x y el ex = let e : l + 1 ≡ suc k = omega arith in ap₂ big_bytes e ex

-- The bytes of a value that is a header byte above a displacement.
displaced_bytes :
    (k x h d : ℕ)
    → x ≡ h * 256 ^ k + d
    → 1 ≤ k
    → k ≤ 3
    → h < 256
    → d < 256 ^ k
    → big_bytes (k + 1) x ≡ h ∷ big_bytes k d
displaced_bytes k x h d ex lo hi hh hd =
    same_bytes k k x _ refl ex ∙ big_bytes-above k h d lo hi hh hd

part-lt : (v x : ℕ) → IsSize v → x < 2 ^ 32 → x % span v < 2 ^ 32
part-lt zero x h k = absurd (omega arith)
part-lt (suc zero) x h k = omega arith
part-lt (suc (suc zero)) x h k = omega arith
part-lt (suc (suc (suc zero))) x h k = omega arith
part-lt (suc (suc (suc (suc v)))) x h k = absurd (omega arith)

three_bytes-lt : (k a : ℕ) → k ≤ 3 → a < 256 ^ k → a < 2 ^ 32
three_bytes-lt zero a h k = omega arith
three_bytes-lt (suc zero) a h k = omega arith
three_bytes-lt (suc (suc zero)) a h k = omega arith
three_bytes-lt (suc (suc (suc zero))) a h k = omega arith
three_bytes-lt (suc (suc (suc (suc n)))) a h k = absurd (omega arith)

size_congr : (m : Machine) (v w a : ℕ) → v ≡ w → load (size_of v) m a ≡ load (size_of w) m a
size_congr m v w a e = ap (λ (n : ℕ). load (size_of n) m a) e

module _ {m : Machine} (wf : IsWf m) (trash at y : ℕ) (rest : List ℕ) (hy : y < 256) where
  -- A memory operand at an address that is known.
  reads-load :
      (p : Parsed) (v a : ℕ)
      → IsSize v
      → p.t ≡ op_mem
      → p.v ≡ v
      → calculate_memory_offset m (operand_of (spec_of p) at) ≡ ok a
      → get_operand_data m trash (operand_of (spec_of p) at) ≡ load (size_of v) m a
  reads-load p v a sv et ev place =
      let op = operand_of (spec_of p) at in
      reads-mem m trash op et
      ∙ mem-load m op a wf.mem_bytes (omega arith) place
      ∙ size_congr m p.v v a ev

  -- A parsed operand whose bytes stand at `at`, with a byte behind them.
  reads-Displaced :
      (p : Parsed) (v bv br d : ℕ)
      → IsSize v
      → IsSize bv
      → br < 16
      → Displaced p v bv br d
      → BytesAt m at (big_bytes (p.l + 1) p.x ++ (y ∷ rest))
      → get_operand_data m trash (operand_of (spec_of p) at)
        ≡ load (size_of v) m (u32 (part m bv br + d))
  reads-Displaced p v bv br d sv sb hb (has, lo, hi, fits) h =
      let head : ℕ = 128 + bv * 16 + br in
      let bytes = displaced_bytes p.l p.x head d has.3 lo hi (omega arith) fits in
      reads-load p v (u32 (part m bv br + d)) sv has.0 has.1 (
        offset-disp m (operand_of (spec_of p) at) p.l head bv br d (y ∷ rest) sb hb refl
          (omega arith) lo hi fits (subst (λ xs. BytesAt m at (xs ++ (y ∷ rest))) bytes h))

  -- The value of an encoded operand is what it means.
  encoded_meaning :
      (s : Source) (p : Parsed)
      → IsSource s
      → Encodes s p
      → BytesAt m at (big_bytes (p.l + 1) p.x ++ (y ∷ rest))
      → get_operand_data m trash (operand_of (spec_of p) at) ≡ meaning m s
  encoded_meaning (reg v r) p (sv, hr) has h =
      let op = operand_of (spec_of p) at in
      let bytes : big_bytes (p.l + 1) p.x ≡ r ∷ [] =
        same_bytes p.l 0 p.x r has.2 has.3 ∙ ap (λ (x : ℕ). x ∷ []) (omega arith) in
      reads-reg m trash op has.0
      ∙ get_operand_data_reg-at m op r (y ∷ rest) (omega arith) hr
          (subst (λ xs. BytesAt m at (xs ++ (y ∷ rest))) bytes h)
      ∙ ap (λ (n : ℕ). ok (part m n r)) has.1
  encoded_meaning (imm v x) p sv (has, short, fits) h =
      let op = operand_of (spec_of p) at in
      reads-imm m trash op has.0
      ∙ get_operand_data_imm-at m op x y rest (omega arith) (omega arith) (omega arith) fits hy
          (subst (λ (n : ℕ). BytesAt m at (big_bytes (p.l + 1) n ++ (y ∷ rest))) has.3 h)
      ∙ ap (λ (n : ℕ). ok (x % span n)) has.1
  encoded_meaning (mem_sum v bv br dv dr) p (sv, sb, hb, sd, hd) has h =
      let bytes = same_bytes p.l 1 p.x (sum_code bv br dv dr) has.2 has.3 in
      reads-load p v (u32 (part m bv br + part m dv dr)) sv has.0 has.1 (
        offset-sum m (operand_of (spec_of p) at) bv br dv dr (y ∷ rest) sb hb sd hd
          (subst (λ xs. BytesAt m at (xs ++ (y ∷ rest))) bytes h))
  encoded_meaning (mem_disp v bv br dv d) p (sv, sb, hb, sd) disp h =
      reads-Displaced p v bv br d sv sb hb disp h
  encoded_meaning (mem_base v bv br) p (sv, sb, hb) disp h =
      reads-Displaced p v bv br 0 sv sb hb disp h
      ∙ ap (λ (a : ℕ). load (size_of v) m a)
          (omega (arith, part-lt bv (m.vregs br) sb (wf.reg_words br)))
  encoded_meaning (mem_at v av a) p (sv, sa) (has, lo, hi, fits) h =
      let bytes = displaced_bytes p.l p.x 0 a (omega (arith, has.3)) lo hi (omega arith) fits in
      reads-load p v (u32 a) sv has.0 has.1 (
        offset-at m (operand_of (spec_of p) at) p.l a (y ∷ rest) (omega arith) lo hi fits
          (subst (λ xs. BytesAt m at (xs ++ (y ∷ rest))) bytes h))
      ∙ ap (λ (n : ℕ). load (size_of v) m n) (omega (arith, three_bytes-lt p.l a hi fits))

-- The parsers' operand has a type.
pub Encodes-there : (s : Source) (p : Parsed) → Encodes s p → p.t ≢ op_none
Encodes-there (reg v r) p h = omega (arith, h.0)
Encodes-there (imm v x) p h = omega (arith, h.0.0)
Encodes-there (mem_sum v bv br dv dr) p h = omega (arith, h.0)
Encodes-there (mem_disp v bv br dv d) p h = omega (arith, h.0.0)
Encodes-there (mem_base v bv br) p h = omega (arith, h.0.0)
Encodes-there (mem_at v av a) p h = omega (arith, h.0.0)

-- What an operand of the assembly language means is what the machine reads. Whatever the parsers
-- return for an operand with sizes and registers of the language, and wherever its bytes stand in
-- the code with a byte behind them: from a well-formed state `getOperandData` gives the part of the
-- register, the number cut to its size, or the big-endian value in memory at the sum of the parts,
-- undefined where that lies outside memory.
pub get_operand_data-parse_operand :
    (m : Machine) (trash at y : ℕ) (rest : List ℕ) (s : Source) (p : Parsed) (ys : List ℕ)
    → IsWf m
    → IsSource s
    → parse_operand s ≡ some p
    → operand_bytes p ≡ some ys
    → y < 256
    → BytesAt m at (ys ++ (y ∷ rest))
    → get_operand_data m trash (operand_of (spec_of p) at) ≡ meaning m s
get_operand_data-parse_operand m trash at y rest s p ys wf hs parsed packed hy h =
    let enc = parse_operand-Encodes s p hs parsed in
    let bytes = operand_bytes-big p (Encodes-there s p enc) ys packed in
    encoded_meaning wf trash at y rest hy s p hs enc
      (subst (λ xs. BytesAt m at (xs ++ (y ∷ rest))) bytes h)
