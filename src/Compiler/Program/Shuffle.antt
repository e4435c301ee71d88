-- ===== src/Compiler/Program/Shuffle.antt =====
-- Where the instructions of a program stand once they are shuffled.
use mathlib.Core.List.{Mem, Mem-prop, not-mem-nil, mem-cons, mem-cons_self, mem-cons_of_mem}
use mathlib.Core.List.Perm.{mem_iff}
use mathlib.Core.Logic.Or
use mathlib.Core.HLevel.{⊥_prop}
use mathlib.Core.Option.{some-injective}
use native.Mathlib.Bridge.{le_prop}
use weeper_vm.Base.{
  ◌↔◌, ℕ, zero, suc, ◌+◌, ◌≤◌, ◌≡◌, ◌≢◌, refl, sym, ◌∙◌, ap, subst, arith, Option, none, some, List,
  [], ◌∷◌, All, get_elem?, map, Bool, true, false, if◌then◌else◌, ◌==◌,
}
use weeper_vm.Compiler.Link.{reordering}
use weeper_vm.Compiler.Link.Offsets.{reordering-place}
use weeper_vm.Compiler.Program.{IsShuffle}

abbrev Packed : Type 0
Packed = List ℕ × ℕ

Packed-set : IsSet (Option Packed)
Packed-set = hlevel

ℕ-set : IsSet ℕ
ℕ-set = hlevel

-- The places are counted from `n` on.
abbrev pub Numbered : ℕ → List Packed → Type 0
Numbered n [] = Unit
Numbered n (t ∷ ts) = (t.1 ≡ n) × Numbered (suc n) ts

-- A member of a numbered list stands at its place.
abbrev Stands : ℕ → List Packed → Packed → Type 0
Stands n ts t = (n ≤ t.1) × ((i : ℕ) → t.1 ≡ n + i → get_elem? ts i ≡ some t)

Stands-prop : (n : ℕ) (ts : List Packed) (t : Packed) → IsProp (Stands n ts t)
Stands-prop n ts t = hlevel (le_prop, Packed-set)

Stands-later :
    (n : ℕ) (u : Packed) (ts : List Packed) (t : Packed) → Stands (suc n) ts t → Stands n (u ∷ ts) t
Stands-later n u ts t (above, at) = (omega (arith, above), later)
  where
    later : (i : ℕ) → t.1 ≡ n + i → get_elem? (u ∷ ts) i ≡ some t
    later zero e = absurd (omega (arith, above, e))
    later (suc i) e = at i (omega (arith, e))

Stands-first :
    (n : ℕ) (u : Packed) (ts : List Packed) (t : Packed)
    → Numbered n (u ∷ ts)
    → t ≡ u
    → Stands n (u ∷ ts) t
Stands-first n u ts t h same =
    let here : t.1 ≡ n = ap (λ x. x.1) same ∙ h.0 in (omega (arith, here), first here)
  where
    first : t.1 ≡ n → (i : ℕ) → t.1 ≡ n + i → get_elem? (u ∷ ts) i ≡ some t
    first here zero e = ap some (sym same)
    first here (suc i) e = absurd (omega (arith, here, e))

Numbered-mem : (n : ℕ) (ts : List Packed) (t : Packed) → Numbered n ts → Mem t ts → Stands n ts t
Numbered-mem n [] t h mem = absurd (not-mem-nil mem)
Numbered-mem n (u ∷ ts) t h mem =
    Or.elim (Stands-prop n (u ∷ ts) t) (mem-cons.0 mem) (λ same. Stands-first n u ts t h same)
      (λ later. Stands-later n u ts t (Numbered-mem (suc n) ts t h.1 later))

mem-get : (ts : List Packed) (i : ℕ) (t : Packed) → get_elem? ts i ≡ some t → Mem t ts
mem-get [] i t e = cc
mem-get (u ∷ ts) zero t e = subst (λ v. Mem v (u ∷ ts)) (some-injective _ _ e) mem-cons_self
mem-get (u ∷ ts) (suc i) t e = mem-cons_of_mem u (mem-get ts i t e)

-- The table has every place that is there.
missing :
    (b : Bool) (rest : Option ℕ)
    → (if b then some 0 else elim rest [ none ↦ none | some new ↦ some (suc new) ]) ≡ none
    → (b ≡ false) × (rest ≡ none)
missing true rest e = cc
missing false none e = (refl, refl)
missing false (some new) e = cc

same-true : (a b : ℕ) → a ≡ b → (a == b) ≡ true
same-true a b h = ground arith

reordering-mem :
    (ts : List Packed) (t : Packed) → Mem t ts → reordering (map (λ t. t.1) ts) t.1 ≢ none
unfolding reordering
reordering-mem [] t mem = λ e. absurd (not-mem-nil mem)
reordering-mem (u ∷ ts) t mem = λ e.
    let (other, rest) = missing (u.1 == t.1) (reordering (map (λ t. t.1) ts) t.1) e in
    Or.elim ⊥_prop (mem-cons.0 mem)
      (λ same. let yes : (u.1 == t.1) ≡ true = same-true u.1 t.1 (ap (λ x. x.1) (sym same)) in cc)
      (λ later. reordering-mem ts t later rest)

map-get :
    (ts : List Packed) (i old : ℕ)
    → get_elem? (map (λ t. t.1) ts) i ≡ some old
    → (t : Packed) × (get_elem? ts i ≡ some t) × (t.1 ≡ old)
map-get [] i old e = cc
map-get (u ∷ ts) zero old e = (u, refl, some-injective _ _ e)
map-get (u ∷ ts) (suc i) old e = map-get ts i old e

mem-cons_map :
    (t u v : Packed) (ts us : List Packed)
    → u ≡ v
    → (Mem t us → Mem t ts)
    → Mem t (u ∷ us)
    → Mem t (v ∷ ts)
mem-cons_map t u v ts us same tail mem =
    Or.elim Mem-prop (mem-cons.0 mem)
      (λ e. subst (λ w. Mem w (v ∷ ts)) (sym (e ∙ same)) mem-cons_self)
      (λ later. mem-cons_of_mem v (tail later))

-- The members of the shuffled list are those of the list.
IsShuffle-mem : (ts us : List Packed) (t : Packed) → IsShuffle ts us → Mem t us ↔ Mem t ts
IsShuffle-mem [] us t h = absurd h
IsShuffle-mem (v ∷ ts) [] t h = absurd h
IsShuffle-mem (v ∷ ts) (u ∷ us) t (same, perm) = (
  mem-cons_map t u v ts us same (mem_iff perm).0,
  mem-cons_map t v u us ts (sym same) (mem_iff perm).1,
)

-- Each instruction stands at the place that the table gives for it.
pub IsShuffle-place :
    (ts us : List Packed) (j : ℕ) (t : Packed)
    → Numbered 0 ts
    → IsShuffle ts us
    → t.1 ≡ j
    → get_elem? ts j ≡ some t
    → (p : ℕ) × (reordering (map (λ t. t.1) us) j ≡ some p) × (get_elem? us p ≡ some t)
IsShuffle-place ts us j t numbered shuffle is_j at = found (reordering (map (λ t. t.1) us) j) refl
  where
    found :
        (o : Option ℕ)
        → reordering (map (λ t. t.1) us) j ≡ o
        → (p : ℕ) × (reordering (map (λ t. t.1) us) j ≡ some p) × (get_elem? us p ≡ some t)
    found none e =
        let mem : Mem t us = (IsShuffle-mem ts us t shuffle).1 (mem-get ts j t at) in
        absurd (reordering-mem us t mem (ap (reordering (map (λ t. t.1) us)) is_j ∙ e))
    found (some p) e =
        let (u, there, is_u) = map-get us p j (reordering-place (map (λ t. t.1) us) j p e) in
        let stands =
          Numbered-mem 0 ts u numbered ((IsShuffle-mem ts us u shuffle).0 (mem-get us p u there)) in
        let same : some u ≡ some t = sym (stands.1 j (is_u ∙ omega arith)) ∙ at in
        (p, e, there ∙ same)

-- The first instruction stays at the start.
pub IsShuffle-first :
    (t : Packed) (ts us : List Packed)
    → t.1 ≡ 0
    → IsShuffle (t ∷ ts) us
    → reordering (map (λ t. t.1) us) 0 ≡ some 0
unfolding reordering
IsShuffle-first t ts [] zeroth h = absurd h
IsShuffle-first t ts (u ∷ us) zeroth (same, _) =
    rw (same-true u.1 0 (ap (λ x. x.1) same ∙ zeroth)) refl

-- What all instructions satisfy, all shuffled ones do.
pub IsShuffle-All :
    (P : Packed → Type 0) (ts us : List Packed)
    → Numbered 0 ts
    → IsShuffle ts us
    → All P ts
    → All P us
IsShuffle-All P ts us numbered shuffle all = from us (λ t mem. mem)
  where
    at_place : (ts : List Packed) (i : ℕ) (t : Packed) → All P ts → get_elem? ts i ≡ some t → P t
    at_place [] i t h e = cc
    at_place (v ∷ ts) zero t h e = subst P (some-injective _ _ e) h.0
    at_place (v ∷ ts) (suc i) t h e = at_place ts i t h.1 e

    of_mem : (t : Packed) → Mem t us → P t
    of_mem t mem =
        let stands = Numbered-mem 0 ts t numbered ((IsShuffle-mem ts us t shuffle).0 mem) in
        at_place ts t.1 t all (stands.1 t.1 (omega arith))

    from : (vs : List Packed) → ((t : Packed) → Mem t vs → Mem t us) → All P vs
    from [] inside = tt
    from (v ∷ vs) inside =
        (of_mem v (inside v mem-cons_self), from vs (λ t mem. inside t (mem-cons_of_mem v mem)))
