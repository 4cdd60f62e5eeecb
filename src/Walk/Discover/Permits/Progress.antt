-- ===== src/Walk/Discover/Permits/Progress.antt =====
-- Blocking and termination of the calls that share the permits.
use rustytree.Prelude.{
  ℕ, zero, suc, ◌+◌, ◌*◌, ◌≤◌, ◌<◌, ◌≡◌, refl, subst, ap, ◌∙◌, ◌⊎◌, inl, inr, arith,
}
use rustytree.Walk.Discover.Spec.{Tree, node, Forest, nil, cons}
use rustytree.Walk.Discover.Permits.{
  Call, waiting, holding, joining, finished, Calls, no_calls, also, spawn, AllFinished, Step,
  acquire, release, join, inside, StepOne, first, later, Run, stay, move, run_length, held,
  held_each, size, size_each, left, left_each,
}

-- A next state.
abbrev pub Next : ℕ → Call → Type 0
Next free c = (free' : ℕ) × ((c' : Call) × Step free c free' c')

abbrev NextOne : ℕ → Calls → Type 0
NextOne free cs = (free' : ℕ) × ((cs' : Calls) × StepOne free cs free' cs')

held_each-AllFinished : (cs : Calls) → AllFinished cs → held_each cs ≡ 0
unfolding held
held_each-AllFinished no_calls h = refl
held_each-AllFinished (also c cs) (e, h) =
    let none_here : held c ≡ 0 = ap held e in
    let none_there = held_each-AllFinished cs h in omega arith

-- Finished, able to move, or blocked with no permit held.
mutual
  unfolding held

  progress : (free : ℕ) (c : Call) → ((c ≡ finished) ⊎ Next free c) ⊎ ((free ≡ 0) × (held c ≡ 0))
  progress zero (waiting t) = inr (refl, refl)
  progress (suc free) (waiting t) = inl (inr (free, (holding t, acquire)))
  progress free (holding (node path f)) = inl (inr (suc free, (joining (spawn f), release)))
  progress free finished = inl (inl refl)
  progress free (joining cs) = elim (progress_each free cs) [
    | inl (inl done) ↦ inl (inr (free, (finished, join done)))
    | inl (inr (free', (cs', s))) ↦ inl (inr (free', (joining cs', inside s)))
    | inr blocked ↦ inr blocked
  ]

  progress_each :
      (free : ℕ) (cs : Calls)
      → (AllFinished cs ⊎ NextOne free cs) ⊎ ((free ≡ 0) × (held_each cs ≡ 0))
  progress_each free no_calls = inl (inl tt)
  progress_each free (also c cs) = elim (progress free c) [
    | inl (inr (free', (c', s))) ↦ inl (inr (free', (also c' cs, first s)))
    | inl (inl done) ↦ elim (progress_each free cs) [
      | inl (inl rest) ↦ inl (inl (done, rest))
      | inl (inr (free', (cs', s))) ↦ inl (inr (free', (also c cs', later s)))
      | inr (none_free, none_held) ↦
          let none_here : held c ≡ 0 = ap held done in inr (none_free, omega arith)
    ]
    | inr (none_free, none_held) ↦ elim (progress_each free cs) [
      | inl (inl rest) ↦
          let none_there = held_each-AllFinished cs rest in inr (none_free, omega arith)
      | inl (inr (free', (cs', s))) ↦ inl (inr (free', (also c cs', later s)))
      | inr (_, rest) ↦ inr (none_free, omega arith)
    ]
  ]

held_each-spawn : (f : Forest) → held_each (spawn f) ≡ 0
unfolding held
held_each-spawn nil = refl
held_each-spawn (cons t f) = let e = held_each-spawn f in omega arith

left_each-spawn : (f : Forest) → left_each (spawn f) ≡ 3 * size_each f
unfolding left size
left_each-spawn nil = refl
left_each-spawn (cons t f) = let e = left_each-spawn f in omega arith

size-positive : (t : Tree) → 0 < size t
unfolding size
size-positive (node path f) = omega arith

-- A step moves a permit, and loses none.
mutual
  unfolding held

  Step-permits :
      {free free' : ℕ} {c c' : Call} → Step free c free' c' → free' + held c' ≡ free + held c
  Step-permits acquire = omega arith
  Step-permits (release {f = f}) = let none = held_each-spawn f in omega arith
  Step-permits (join {cs = cs} h) = let none = held_each-AllFinished cs h in omega arith
  Step-permits (inside s) = StepOne-permits s

  StepOne-permits :
      {free free' : ℕ} {cs cs' : Calls}
      → StepOne free cs free' cs'
      → free' + held_each cs' ≡ free + held_each cs
  StepOne-permits (first s) = let e = Step-permits s in omega arith
  StepOne-permits (later s) = let e = StepOne-permits s in omega arith

-- A step leaves fewer steps to make.
mutual
  unfolding left size

  Step-left : {free free' : ℕ} {c c' : Call} → Step free c free' c' → left c' < left c
  Step-left (acquire {t = t}) = let some_left = size-positive t in omega arith
  Step-left (release {f = f}) = let e = left_each-spawn f in omega arith
  Step-left (join h) = omega arith
  Step-left (inside s) = let lt = StepOne-left s in omega arith

  StepOne-left :
      {free free' : ℕ} {cs cs' : Calls} → StepOne free cs free' cs' → left_each cs' < left_each cs
  StepOne-left (first s) = let lt = Step-left s in omega arith
  StepOne-left (later s) = let lt = StepOne-left s in omega arith

Run-permits : {free free' : ℕ} {c c' : Call} → Run free c free' c' → free' + held c' ≡ free + held c
Run-permits stay = refl
Run-permits (move s r) = Run-permits r ∙ Step-permits s

run_length-le :
    {free free' : ℕ} {c c' : Call} (r : Run free c free' c') → run_length r + left c' ≤ left c
unfolding run_length
run_length-le stay = omega arith
run_length-le (move s r) = let le = run_length-le r in let lt = Step-left s in omega arith

-- A state from which all permits can be had is finished or can move.
unblocked :
    (limit free : ℕ) (c : Call) → 0 < limit → free + held c ≡ limit → (c ≡ finished) ⊎ Next free c
unblocked limit free c positive e = elim (progress free c) [
  | inl h ↦ h
  | inr (none_free, none_held) ↦ absurd (omega arith)
]

finished_run :
    (limit free : ℕ) (c : Call) → free + held c ≡ limit → c ≡ finished → Run free c limit finished
unfolding held
finished_run limit free c e f =
    let none_held : held c ≡ 0 = ap held f in
    let all_free : free ≡ limit = omega arith in
    subst (λ n. Run free c n finished) all_free (subst (λ d. Run free c free d) f stay)

complete :
    (fuel limit free : ℕ) (c : Call)
    → left c ≤ fuel
    → 0 < limit
    → free + held c ≡ limit
    → Run free c limit finished
complete zero limit free c le positive e = elim (unblocked limit free c positive e) [
  | inl f ↦ finished_run limit free c e f
  | inr (free', (c', s)) ↦ let lt = Step-left s in absurd (omega arith)
]
complete (suc fuel) limit free c le positive e = elim (unblocked limit free c positive e) [
  | inl f ↦ finished_run limit free c e f
  | inr (free', (c', s)) ↦
      let lt = Step-left s in
      move s (complete fuel limit free' c' (omega arith) positive (Step-permits s ∙ e))
]

-- For every limit of at least one permit, every tree of groups, and every run from the call on the
-- tree, in any order of the steps: the state that it reaches is finished or has a next step, it has
-- a run to the end with all permits free again, and the run so far has at most three steps for each
-- group.
pub discover-completes :
    (limit free : ℕ) (t : Tree) (c : Call) (r : Run limit (waiting t) free c)
    → 0 < limit
    → ((c ≡ finished) ⊎ Next free c) × (Run free c limit finished × (run_length r ≤ 3 * size t))
unfolding left held
discover-completes limit free t c r positive =
    let permits = Run-permits r in
    let kept : free + held c ≡ limit = omega arith in
    let short = run_length-le r in
    (
      unblocked limit free c positive kept,
      (complete (left c) limit free c (omega arith) positive kept, omega arith),
    )
