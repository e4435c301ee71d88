-- ===== src/Invariant/Special.antt =====
-- SWAP, REV, PACKHI, PACKLO, ROL and ROR keep the invariant.
use weeper_vm.Base.{
  ℕ, zero, suc, ◌-◌, ◌%◌, arith, Ensures, returns, bind, anyhow, bit_and, bit_or, u32, ◌<<<◌, ◌>>>◌,
}
use weeper_vm.Base.Bits.{or-lt, and-le}
use weeper_vm.Machine.{Machine}
use weeper_vm.Operand.{Operand, get_operand_data}
use weeper_vm.Handler.Arith.{mod32}
use weeper_vm.Handler.Special.{
  half_width, high_mask, low_mask, swap_halves, handle_swap, bit_width, rev_rounds, handle_rev,
  pack_hi, pack_lo, handle_packhi, handle_packlo, rotate_left, rotate_right, handle_rol, handle_ror,
}
use weeper_vm.Invariant.Defs.{IsWord, IsWf}
use weeper_vm.Invariant.Read.{get_operand_data-IsWord}
use weeper_vm.Invariant.Write.{write_back-IsWf}
use weeper_vm.Invariant.Arith.{shl32-IsWord, shr32-IsWord}

masked-IsWord : (x mask k : ℕ) → IsWord x → IsWord (bit_and x mask >>> k)
masked-IsWord x mask k h = omega (arith, and-le x mask)

swap_halves-IsWord : (v x : ℕ) → IsWord x → IsWord (swap_halves v x)
unfolding swap_halves
swap_halves-IsWord v x h =
    or-lt 32 (bit_and x (high_mask v) >>> half_width v) (u32 _)
      (masked-IsWord x (high_mask v) (half_width v) h) (omega arith)

rev_rounds-IsWord : (n src rev : ℕ) → IsWord rev → IsWord (rev_rounds n src rev)
unfolding rev_rounds
rev_rounds-IsWord zero src rev h = h
rev_rounds-IsWord (suc n) src rev h =
    rev_rounds-IsWord n (src >>> 1) (bit_or (u32 (rev <<< 1)) (src % 2))
      (or-lt 32 (u32 (rev <<< 1)) (src % 2) (omega arith) (omega arith))

pack_hi-IsWord : (v dst src : ℕ) → IsWord dst → IsWord src → IsWord (pack_hi v dst src)
unfolding pack_hi
pack_hi-IsWord v dst src hd hs =
    or-lt 32 (bit_and dst (high_mask v)) (bit_and src (high_mask v) >>> half_width v)
      (omega (arith, and-le dst (high_mask v))) (masked-IsWord src (high_mask v) (half_width v) hs)

pack_lo-IsWord : (v dst src : ℕ) → IsWord dst → IsWord (pack_lo v dst src)
unfolding pack_lo
pack_lo-IsWord v dst src hd =
    or-lt 32 (bit_and dst (low_mask v)) (u32 _) (omega (arith, and-le dst (low_mask v)))
      (omega arith)

rotate_left-IsWord : (w x n : ℕ) → IsWord x → Ensures IsWord (rotate_left w x n)
unfolding rotate_left
rotate_left-IsWord w x n h =
    bind (shl32-IsWord x n)
      λ hi hh. bind (shr32-IsWord x (w - n) h) λ lo hl. returns (or-lt 32 hi lo hh hl)

rotate_right-IsWord : (w x n : ℕ) → IsWord x → Ensures IsWord (rotate_right w x n)
unfolding rotate_right
rotate_right-IsWord w x n h =
    bind (shr32-IsWord x n h)
      λ lo hl. bind (shl32-IsWord x (w - n)) λ hi hh. returns (or-lt 32 lo hi hl hh)

module _ {m : Machine} (wf : IsWf m) (op1 op2 : Operand) where
  pub swap-IsWf : Ensures IsWf (handle_swap m op1 op2)
  unfolding handle_swap
  swap-IsWf =
      bind (get_operand_data-IsWord wf 0xe5 op2)
        λ x hx. write_back-IsWf wf op1 _ _ _ _ (swap_halves-IsWord op2.v x hx)

  pub rev-IsWf : Ensures IsWf (handle_rev m op1 op2)
  unfolding handle_rev
  rev-IsWf =
      bind (get_operand_data-IsWord wf 0x13 op2) λ x hx.
        write_back-IsWf wf op1 _ _ _ _ (rev_rounds-IsWord (bit_width op2.v) x 0 (omega arith))

  pub packhi-IsWf : Ensures IsWf (handle_packhi m op1 op2)
  unfolding handle_packhi
  packhi-IsWf = bind (get_operand_data-IsWord wf 0x4e op2) λ src hs.
      bind (get_operand_data-IsWord wf 0xa3 (record op1 { v = op2.v }))
        λ dst hd. write_back-IsWf wf op1 _ _ _ _ (pack_hi-IsWord op2.v dst src hd hs)

  pub packlo-IsWf : Ensures IsWf (handle_packlo m op1 op2)
  unfolding handle_packlo
  packlo-IsWf = bind (get_operand_data-IsWord wf 0x4e op2) λ src hs.
      bind (get_operand_data-IsWord wf 0xa3 (record op1 { v = op2.v }))
        λ dst hd. write_back-IsWf wf op1 _ _ _ _ (pack_lo-IsWord op2.v dst src hd)

  pub rol-IsWf : Ensures IsWf (handle_rol m op1 op2)
  unfolding handle_rol
  rol-IsWf = bind (anyhow (get_operand_data m 0x74 op2)) λ n _.
      bind (anyhow (mod32 n (bit_width op1.v))) λ rot _.
        bind (get_operand_data-IsWord wf 0x02 op1) λ val hv.
          bind (rotate_left-IsWord (bit_width op1.v) val rot hv)
            λ res hr. write_back-IsWf wf op1 _ _ res _ hr

  pub ror-IsWf : Ensures IsWf (handle_ror m op1 op2)
  unfolding handle_ror
  ror-IsWf = bind (anyhow (get_operand_data m 0xa2 op2)) λ n _.
      bind (anyhow (mod32 n (bit_width op1.v))) λ rot _.
        bind (get_operand_data-IsWord wf 0x7a op1) λ val hv.
          bind (rotate_right-IsWord (bit_width op1.v) val rot hv)
            λ res hr. write_back-IsWf wf op1 _ _ res _ hr
