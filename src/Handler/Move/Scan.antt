-- ===== src/Handler/Move/Scan.antt =====
-- The loop over the region of the previous call stack ends, and where.
use weeper_vm.Base.{
  ℕ, zero, suc, ◌+◌, ◌-◌, ◌*◌, ◌%◌, ◌≤◌, ◌<◌, ◌≡◌, ◌≢◌, ◌⊎◌, inl, inr, arith, Run, ok, Returns,
  gives, bit_or, ltb, not, ◌&&◌, ◌==◌, ◌<<<◌, Bool-cases, if◌then◌else◌, subst,
}
use native.Mathlib.Decide.{dec_lt}
use weeper_vm.Machine.{Machine, vmem_at, vmem_size, vmem_stack_lo, vmem_stack_hi}
use weeper_vm.Handler.Move.{legacy_scan, legacy_rounds, legacy_top}

-- The three bytes at `a` as a number.
abbrev pub word_at : Machine → ℕ → ℕ
word_at m a = bit_or (bit_or (m.vmem a <<< 16) (m.vmem (a + 1) <<< 8)) (m.vmem (a + 2))

-- Where a scan from `from` ends: at the first step of three bytes on that has the word 0, or at the
-- end of the region.
pub record IsTop (m : Machine) (from o : ℕ) : Type 0 where
  pub after : from < o
  pub inside : o ≤ vmem_stack_hi
  pub aligned : o % 3 ≡ vmem_stack_lo % 3
  pub stops : (word_at m o ≡ 0) ⊎ (o ≡ vmem_stack_hi)
  pub nonzero : (a : ℕ) → from < a → a < o → a % 3 ≡ vmem_stack_lo % 3 → word_at m a ≢ 0

vmem_at-inside : (m : Machine) (a : ℕ) → a < vmem_size → vmem_at m a ≡ ok (m.vmem a)
unfolding vmem_at
vmem_at-inside m a h = ground arith

legacy_scan-suc :
    (left : ℕ) (m : Machine) (offs : ℕ)
    → offs < vmem_stack_hi
    → legacy_scan (suc left) m offs ≡ (
        if not (word_at m (offs + 3) == 0) && ltb (offs + 3) vmem_stack_hi
        then legacy_scan left m (offs + 3)
        else ok (offs + 3))
unfolding legacy_scan
legacy_scan-suc left m offs h = rw (
  vmem_at-inside m (offs + 3) (omega arith),
  vmem_at-inside m (offs + 3 + 1) (omega arith),
  vmem_at-inside m (offs + 3 + 2) (omega arith),
)

legacy_scan-IsTop :
    (left : ℕ) (m : Machine) (offs : ℕ)
    → offs < vmem_stack_hi
    → offs % 3 ≡ vmem_stack_lo % 3
    → vmem_stack_hi ≤ offs + 3 * left
    → Returns (IsTop m offs) (legacy_scan left m offs)
legacy_scan-IsTop zero m offs h al fuel = absurd (omega arith)
legacy_scan-IsTop (suc left) m offs h al fuel =
    rw (legacy_scan-suc left m offs h)
      (elim (Bool-cases (not (word_at m (offs + 3) == 0) && ltb (offs + 3) vmem_stack_hi)) [
        | inl e ↦ rw e (
            further (legacy_scan-IsTop left m (offs + 3) (ground arith) (omega arith) (omega arith))
              (ground arith))
        | inr e ↦ rw e (
            gives (record {
              after = omega arith;
              inside = omega arith;
              aligned = omega arith;
              stops = ground arith;
              nonzero = λ a lo hi al'. absurd (omega arith);
            }))
      ])
  where
    further :
        {r : Run ℕ}
        → Returns (IsTop m (offs + 3)) r
        → word_at m (offs + 3) ≢ 0
        → Returns (IsTop m offs) r
    further (gives t) ne = gives (record {
      after = omega (arith, t.after);
      inside = t.inside;
      aligned = t.aligned;
      stops = t.stops;
      nonzero = λ a lo hi al' z. elim (dec_lt (offs + 3) a) [
        | yes p ↦ t.nonzero a p hi al' z
        | no p ↦ let e : a ≡ offs + 3 = omega arith in ne (subst (λ b. word_at m b ≡ 0) e z)
      ];
    })

-- The scan of the previous call stack always ends within its rounds and reads only inside `vmem`:
-- at the first address from 0x010000 on, by steps of three, whose three bytes are 0, or at
-- 0x01FFFF if there is none.
pub legacy_top-IsTop : (m : Machine) → Returns (IsTop m (vmem_stack_lo - 3)) (legacy_top m)
unfolding legacy_top
legacy_top-IsTop m =
    legacy_scan-IsTop legacy_rounds m (vmem_stack_lo - 3) (omega arith) (omega arith) (omega arith)
