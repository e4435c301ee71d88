-- ===== src/Compiler/Insn/Place.antt =====
-- What the machine makes of the parts of an instruction where they stand in the code.
use weeper_vm.Base.{
  ℕ, ◌+◌, ◌/◌, ◌%◌, ◌^◌, ◌<◌, ◌≡◌, ◌≢◌, subst, ap, ap₂, ◌∙◌, arith, List, ◌++◌, ok, some, length,
  length-append, bit_xor,
}
use weeper_vm.Machine.{Machine}
use weeper_vm.Operand.{Operand, op_none, get_operand_data}
use weeper_vm.Handler.Sys.{Kernel}
use weeper_vm.Handler.Control.{operand_length, next_address}
use weeper_vm.Invariant.{IsWf}
use weeper_vm.Emulate.{dispatch, emulate_step}
use weeper_vm.Emulate.Decode.{parse_header, decode}
use weeper_vm.Emulate.Decode.Header.{
  operand_of, IsSpec, compile_header, compile_opcode_r, header_sum, compile_opcode_r-lt,
  decode-compile_header,
}
use weeper_vm.Compiler.{Parsed, operand_bytes, spec_of, big_bytes, little_3}
use weeper_vm.Compiler.Bytes.{BytesAt, BytesAt-right}
use weeper_vm.Compiler.Meaning.{
  Source, reg, imm, mem_sum, mem_disp, mem_base, mem_at, parse_operand, meaning, IsSource,
}
use weeper_vm.Compiler.Meaning.Encodes.{Encodes}
use weeper_vm.Compiler.Meaning.Operands.{get_operand_data-parse_operand}
use weeper_vm.Compiler.Insn.Layout.{operand_bytes-length, next_byte, fetch-at, next_address-at}

-- The types and sizes of what the parsers return fit the header.
pub Encodes-IsSpec : (s : Source) (p : Parsed) → IsSource s → Encodes s p → IsSpec (spec_of p)
Encodes-IsSpec (reg v r) p (sv, hr) has = omega (arith, has)
Encodes-IsSpec (imm v x) p sv (has, short, fits) = omega (arith, has)
Encodes-IsSpec (mem_sum v bv br dv dr) p (sv, _, _, _, _) has = omega (arith, has)
Encodes-IsSpec (mem_disp v bv br dv d) p (sv, _, _, _) (has, lo, hi, fits) = omega (arith, has)
Encodes-IsSpec (mem_base v bv br) p (sv, _, _) (has, lo, hi, fits) = omega (arith, has)
Encodes-IsSpec (mem_at v av a) p (sv, _) (has, lo, hi, fits) = omega (arith, has)

-- A packed instruction in the code is decoded and dispatched as it was packed.
pub step-dispatch :
    (k : Kernel) (m : Machine) (vip l o c : ℕ) (p q : Parsed) (rest : List ℕ)
    → l < 32
    → o < 4
    → c < 32
    → IsSpec (spec_of p)
    → IsSpec (spec_of q)
    → BytesAt m vip
        (big_bytes 3 (compile_header l o (compile_opcode_r l o c) (spec_of p) (spec_of q)) ++ rest)
    → emulate_step k m vip
      ≡ dispatch k m vip c
          (operand_of (spec_of p) (vip + 3))
          (operand_of (spec_of q) (vip + 3 + (p.l + 1)))
unfolding emulate_step
step-dispatch k m vip l o c p q rest hl ho hc sp sq h =
    let r = compile_opcode_r l o c in
    let hd = compile_header l o r (spec_of p) (spec_of q) in
    let small : hd < 2 ^ 24 = omega (
      arith,
      compile_opcode_r-lt l o c,
      header_sum l o r (spec_of p) (spec_of q) hl ho (compile_opcode_r-lt l o c) sp sq,
    ) in
    let e0 : hd / 65536 % 256 ≡ hd / 65536 = omega arith in
    let e2 : hd / 1 % 256 ≡ hd % 256 = omega arith in
    rw (fetch-at m vip (hd / 65536 % 256) (hd / 256 % 256) (hd / 1 % 256) rest h) (
      ap (λ d. dispatch k m vip d.opcode d.op1 d.op2)
        (ap₂ (λ (a b : ℕ). decode vip (parse_header a (hd / 256 % 256) b)) e0 e2
          ∙ decode-compile_header vip l o c (spec_of p) (spec_of q) hl ho hc sp sq))

-- An instruction with operands `p` and `q` of the bytes `xs` and `ys`.
module _ (k : Kernel) (m : Machine) (vip l o c ft : ℕ) (p q : Parsed) (xs ys : List ℕ) where
  abbrev pub first : Operand
  first = operand_of (spec_of p) (vip + 3)

  abbrev pub second : Operand
  second = operand_of (spec_of q) (vip + 3 + (p.l + 1))

  abbrev pub insn_bytes : List ℕ
  insn_bytes =
      big_bytes 3 (compile_header l o (compile_opcode_r l o c) (spec_of p) (spec_of q))
      ++ (xs ++ (ys ++ little_3 (bit_xor ft 0xdc2606)))

  pub tail_at :
      BytesAt m vip insn_bytes → BytesAt m (vip + 3) (xs ++ (ys ++ little_3 (bit_xor ft 0xdc2606)))
  tail_at h =
      BytesAt-right m vip
        (big_bytes 3 (compile_header l o (compile_opcode_r l o c) (spec_of p) (spec_of q))) _ h

  pub next_lem :
      ft < 2 ^ 24
      → vip + length insn_bytes < 2 ^ 31
      → operand_bytes p ≡ some xs
      → operand_bytes q ≡ some ys
      → BytesAt m vip insn_bytes
      → next_address m vip first second ≡ ok ft
  next_lem hf hv ex ey h =
      let lx = operand_bytes-length p (vip + 3) xs ex in
      let ly = operand_bytes-length q (vip + 3 + (p.l + 1)) ys ey in
      let word = little_3 (bit_xor ft 0xdc2606) in
      let place : vip + 3 + length xs + length ys
          ≡ vip + operand_length first + operand_length second + 3 =
        omega (arith, lx, ly) in
      next_address-at m vip first second ft hf
        (omega (arith, lx, ly, length-append xs (ys ++ word), length-append ys word))
        (subst (λ (n : ℕ). BytesAt m n word) place
          (BytesAt-right m (vip + 3 + length xs) ys word
            (BytesAt-right m (vip + 3) xs (ys ++ word) (tail_at h))))

  pub first_means :
      (s : Source) (trash : ℕ)
      → IsWf m
      → IsSource s
      → parse_operand s ≡ some p
      → operand_bytes p ≡ some xs
      → operand_bytes q ≡ some ys
      → BytesAt m vip insn_bytes
      → get_operand_data m trash first ≡ meaning m s
  first_means s trash wf hs parsed ex ey h =
      let (y, rest, hy, e) = next_byte q ys (bit_xor ft 0xdc2606) ey in
      get_operand_data-parse_operand m trash (vip + 3) y rest s p xs wf hs parsed ex hy
        (subst (λ zs. BytesAt m (vip + 3) (xs ++ zs)) e (tail_at h))

  pub second_means :
      (s : Source) (trash : ℕ)
      → IsWf m
      → IsSource s
      → parse_operand s ≡ some q
      → p.t ≢ op_none
      → operand_bytes p ≡ some xs
      → operand_bytes q ≡ some ys
      → BytesAt m vip insn_bytes
      → get_operand_data m trash second ≡ meaning m s
  second_means s trash wf hs parsed there ex ey h =
      let word = bit_xor ft 0xdc2606 in
      let lx = operand_bytes-length p (vip + 3) xs ex in
      let place : vip + 3 + length xs ≡ vip + 3 + (p.l + 1) = ground (arith, lx) in
      get_operand_data-parse_operand m trash (vip + 3 + (p.l + 1)) (word % 256) _ s q ys wf hs
        parsed ey (omega arith)
        (subst (λ (n : ℕ). BytesAt m n (ys ++ little_3 word)) place
          (BytesAt-right m (vip + 3) xs (ys ++ little_3 word) (tail_at h)))
