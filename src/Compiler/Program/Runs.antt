-- ===== src/Compiler/Program/Runs.antt =====
-- A compiled and shuffled program does what its lines do in the order of the source.
use mathlib.Core.Option.{some-injective}
use weeper_vm.Base.{
  ℕ, zero, suc, ◌+◌, ◌^◌, ◌<◌, ◌≤◌, ◌≡◌, refl, sym, ◌∙◌, ap, subst, arith, Option, none, some, List,
  [], ◌∷◌, All, get_elem?, length, length-append, take, false, if◌then◌else◌, ◌==◌, Run, ok, exited,
  undefined, ◌>>=◌,
}
use weeper_vm.Machine.{Machine}
use weeper_vm.Handler.Sys.{Kernel}
use weeper_vm.Invariant.{IsWf}
use weeper_vm.Emulate.{emulate_step, emulate_loop}
use weeper_vm.Compiler.{correct_fallthrough}
use weeper_vm.Compiler.Meaning.{Source, meaning, IsSource}
use weeper_vm.Compiler.Insn.{compile_insn}
use weeper_vm.Compiler.Program.Placed.{
  Packed, indices, Placed, zip_packed-Numbered, zip_packed-All, zip_packed-Placed,
}
use weeper_vm.Compiler.Insn.Exit.{exit_through, dispatch-exit}
use weeper_vm.Compiler.Insn.Runs.{emulate_step-compile_insn}
use weeper_vm.Compiler.Link.{Item, total, join, reordering, link}
use weeper_vm.Compiler.Link.Linked.{IsLong, link-at, link-All}
use weeper_vm.Compiler.Link.Offsets.{total-take, correct_fallthrough-length}
use weeper_vm.Compiler.Link.Order.{BytesAt-code, compile_insn-pack, pack_insn-length}
use weeper_vm.Compiler.Program.{
  Line, run_line, run_lines, IsLine, line_item, exit_item, items, zip_packed, IsShuffle,
}
use weeper_vm.Compiler.Program.Step.{arrive, emulate_step-line, run_line-IsWf, run_line-code}
use weeper_vm.Compiler.Program.Shuffle.{Numbered, IsShuffle-first, IsShuffle-All}

elsewhere : (v : ℕ) → v < 0xffffff → (v == 0xffffff) ≡ false
elsewhere v h = ground arith

-- A round that does not go to the end of the run is followed by the others.
after_round :
    (ks : ℕ → Kernel) (fuel next : ℕ) (r : Run Machine) (f : Machine → Run (Option Machine))
    → next < 0xffffff
    → ((m : Machine) → r ≡ ok m → emulate_loop ks fuel m next ≡ f m)
    → ((r >>= arrive next) >>= λ t.
        if t.0 == 0xffffff then ok (some t.1) else emulate_loop ks fuel t.1 t.0)
      ≡ (r >>= f)
after_round ks fuel next (ok m) f h rest = rw (elsewhere next h) (rest m refl)
after_round ks fuel next (exited c) f h rest = refl
after_round ks fuel next undefined f h rest = refl

each :
    (r : Run Machine) (g : Machine → Run (Option Machine))
    (f : Option Machine → Run (Option Machine))
    → ((m : Machine) → (g m >>= f) ≡ g m)
    → ((r >>= g) >>= f) ≡ (r >>= g)
each (ok m) g f h = h m
each (exited c) g f h = refl
each undefined g f h = refl

first_place :
    (ts us : List Packed) → Numbered 0 ts → IsShuffle ts us → reordering (indices us) 0 ≡ some 0
first_place [] us h shuffle = absurd shuffle
first_place (t ∷ ts) us h shuffle = IsShuffle-first t ts us h.0 shuffle

-- The rounds on a program that has been linked.
module _ (left cipher : ℕ → ℕ) (hl : (j : ℕ) → left j < 32) (ho : (j : ℕ) → cipher j < 4)
    (us : List Packed) (last : ℕ) (out : List (List ℕ)) (long : All IsLong us)
    (linked : link us last ≡ some out) (small : total out < 2 ^ 24) where
  -- An instruction in the finished code.
  abbrev There : Item → ℕ → Type 0
  There i p =
      (next : ℕ) × (bytes : List ℕ) × (get_elem? out p ≡ some bytes)
      × (compile_insn i.l i.o i.c next i.a i.b ≡ some bytes)
      × (next < 2 ^ 24)
      × (total (take p out) + length bytes < 2 ^ 24)
      × (3 ≤ length bytes)
      × ((dst : ℕ) → reordering (indices us) (i.old + 1) ≡ some dst → next ≡ total (take dst out))

  Placed-There :
      (i : Item) (p : ℕ) → Placed us i → reordering (indices us) i.old ≡ some p → There i p
  Placed-There i p (packed, p', packs, place, at) e =
      let same : p' ≡ p = some-injective _ _ (sym place ∙ e) in
      let (next, here, near, follows) =
        link-at us last out p (packed, i.old) long linked
          (subst (λ (q : ℕ). get_elem? us q ≡ some (packed, i.old)) same at) in
      let bytes = correct_fallthrough packed next in
      let header : 3 ≤ length packed = pack_insn-length i packed packs in
      let size : length bytes ≡ length packed = correct_fallthrough-length packed next header in
      (
        next,
        bytes,
        here,
        compile_insn-pack i packed next packs,
        near,
        omega (arith, total-take out p bytes here),
        omega (arith, size, header),
        follows,
      )

  -- The first instruction of what is left.
  arrives :
      (cs : List Line) (e : Source) (n : ℕ)
      → All (Placed us) (items left cipher n cs e)
      → (q : ℕ) × (reordering (indices us) n ≡ some q) × (total (take q out) < 0xffffff)
  arrives [] e n ((packed, q, packs, place, at), _) =
      let (_, bytes, _, _, _, fits, header, _) =
        Placed-There (exit_item left cipher n e) q (packed, q, packs, place, at) place in
      (q, place, omega (arith, fits, header))
  arrives (c ∷ cs) e n ((packed, q, packs, place, at), _) =
      let (_, bytes, _, _, _, fits, header, _) =
        Placed-There (line_item left cipher n c) q (packed, q, packs, place, at) place in
      (q, place, omega (arith, fits, header))

  run_from :
      (cs : List Line) (e : Source) (n p fuel : ℕ) (ks : ℕ → Kernel) (m : Machine)
      → IsWf m
      → m.vcode ≡ join out
      → All IsLine cs
      → IsSource e
      → All (Placed us) (items left cipher n cs e)
      → reordering (indices us) n ≡ some p
      → length cs < fuel
      → emulate_loop ks fuel m (total (take p out)) ≡ run_lines cs e m
  unfolding emulate_loop
  run_from cs e n p zero ks m wf code lines he placed place enough = absurd (omega arith)
  run_from [] e n p (suc fuel) ks m wf code lines he (placed, _) place enough =
      let (next, bytes, here, compiled, near, fits, _, _) =
        Placed-There (exit_item left cipher n e) p placed place in
      let (op1, op2, (step, means, _, _, _)) =
        emulate_step-compile_insn (ks 0) m (total (take p out)) (left n) (cipher n) 13 next (some e)
          none bytes wf he (hl n) (ho n) (omega arith) near compiled (omega arith)
          (BytesAt-code m out p bytes code here) in
      rw (step, dispatch-exit (ks 0) m (total (take p out)) op1 op2 e means)
        (exit_through (meaning m e) _)
  run_from (c ∷ cs) e n p (suc fuel) ks m wf code (line, lines) he (placed, rest) place enough =
      let (next, bytes, here, compiled, near, fits, _, follows) =
        Placed-There (line_item left cipher n c) p placed place in
      let (q, succ, inside) = arrives cs e (suc n) rest in
      let at = total (take p out) in
      let goes : next ≡ total (take q out) =
        follows q (ap (reordering (indices us)) (omega arith) ∙ succ) in
      let step : (k : Kernel) → emulate_step k m at ≡ (run_line m c >>= λ m'. ok (next, m')) = λ k.
        emulate_step-line k m at (left n) (cipher n) next c bytes wf line (hl n) (ho n) near
          compiled (omega arith) (BytesAt-code m out p bytes code here) in
      let others = λ (i : ℕ). ks (suc i) in
      rw (step (ks 0)) (
        after_round others fuel next (run_line m c) (run_lines cs e) (omega (arith, goes, inside))
          λ m' h.
            ap (λ (v : ℕ). emulate_loop others fuel m' v) goes
            ∙ run_from cs e (suc n) q fuel others m' (run_line-IsWf m m' at next c wf step h)
                (run_line-code m m' c h ∙ code) lines he rest succ (omega arith))

-- The rounds of a whole program from its first instruction on.
pub emulate_loop-run_lines :
    (ks : ℕ → Kernel) (left cipher : ℕ → ℕ) (cs : List Line) (e : Source) (ts us : List Packed)
    (last : ℕ) (out : List (List ℕ)) (fuel : ℕ) (m : Machine)
    → IsWf m
    → ((j : ℕ) → left j < 32)
    → ((j : ℕ) → cipher j < 4)
    → All IsLine cs
    → IsSource e
    → zip_packed (items left cipher 0 cs e) ≡ some ts
    → IsShuffle ts us
    → link us last ≡ some out
    → total out < 2 ^ 24
    → m.vcode ≡ join out
    → length cs < fuel
    → emulate_loop ks fuel m 0 ≡ run_lines cs e m
emulate_loop-run_lines ks left cipher cs e ts us last out fuel m wf hl ho lines he combined shuffle
      linked small code enough =
    let numbered = zip_packed-Numbered left cipher 0 cs e ts combined in
    let (long, _) = zip_packed-All (items left cipher 0 cs e) ts combined in
    let placed =
      zip_packed-Placed ts us (items left cipher 0 cs e) 0 ts numbered shuffle combined numbered
        (λ i t h. ap (λ (q : ℕ). get_elem? ts q) (omega arith) ∙ h) in
    run_from left cipher hl ho us last out (IsShuffle-All IsLong ts us numbered shuffle long) linked
      small cs e 0 0 fuel ks m wf code lines he placed (first_place ts us numbered shuffle) enough

-- The linked program is made of bytes.
pub zip_packed-link-All :
    (left cipher : ℕ → ℕ) (cs : List Line) (e : Source) (ts us : List Packed) (last : ℕ)
    (out : List (List ℕ))
    → zip_packed (items left cipher 0 cs e) ≡ some ts
    → IsShuffle ts us
    → link us last ≡ some out
    → All (λ x. x < 256) (join out)
zip_packed-link-All left cipher cs e ts us last out combined shuffle linked =
    let numbered = zip_packed-Numbered left cipher 0 cs e ts combined in
    let (long, bytes) = zip_packed-All (items left cipher 0 cs e) ts combined in
    link-All us last out (IsShuffle-All IsLong ts us numbered shuffle long)
      (IsShuffle-All (λ t. All (λ x. x < 256) t.0) ts us numbered shuffle bytes) linked

pub length-join : (out : List (List ℕ)) → length (join out) ≡ total out
length-join [] = refl
length-join (s ∷ out) = omega (arith, length-append s (join out), length-join out)

-- A program ends the process, if it returns at all.
pub run_lines-ends :
    (cs : List Line) (e : Source) (m : Machine) (f : Option Machine → Run (Option Machine))
    → (run_lines cs e m >>= f) ≡ run_lines cs e m
run_lines-ends [] e m f = exit_through (meaning m e) f
run_lines-ends (c ∷ cs) e m f =
    each (run_line m c) (run_lines cs e) f (λ m. run_lines-ends cs e m f)
