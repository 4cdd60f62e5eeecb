-- ===== src/Walk/Recursive/Limit.antt =====
-- The limit on concurrency of `walk_recursive` of src/walk.rs.
use rustytree.Prelude.{
  ℕ, max, ◌≤◌, ◌<◌, ◌≡◌, refl, sym, ap, ◌∙◌, ◌↔◌, ◌⊎◌, inl, inr, Bool, Bool-cases, false, ltb,
  ltb→lt, ltb→le, Option, none, some, List, map, Text, arith,
}
use mathlib.Core.Option.{get_or}
use rustytree.Error.{Result, ok, err}
use rustytree.Glob.{GlobPredicate}
use rustytree.Array.Dtype.{DtypeNames}
use rustytree.Node.{NodeData}
use rustytree.Walk.Join.{Race}
use rustytree.Walk.Discover.{Semaphore}
use rustytree.Walk.Eager.Phase.{fill_node, eager_phase_lem}
use rustytree.Walk.Recursive.{
  WalkSource, done, panic, max_permits, new_semaphore, finish, then_eager, walk_source, walk_with,
  walk_recursive,
}

-- A limit that tokio's semaphore takes: at most `2 ^ 61 - 1`, or none given.
abbrev pub IsAllowed : Option ℕ → Type 0
IsAllowed max_concurrency = get_or max_concurrency 32 ≤ max_permits

-- The semaphore of an allowed limit.
abbrev pub opened_semaphore : Option ℕ → Semaphore
opened_semaphore max_concurrency = record {
  permits = max (get_or max_concurrency 32) 1;
  closed = false;
}

new_semaphore-IsAllowed :
    (max_concurrency : Option ℕ)
    → IsAllowed max_concurrency
    → new_semaphore max_concurrency ≡ some (opened_semaphore max_concurrency)
unfolding new_semaphore
new_semaphore-IsAllowed max_concurrency h = ground arith

new_semaphore-above :
    (max_concurrency : Option ℕ)
    → max_permits < get_or max_concurrency 32
    → new_semaphore max_concurrency ≡ none
unfolding new_semaphore
new_semaphore-above max_concurrency h = ground arith

limit_cases :
    (max_concurrency : Option ℕ)
    → IsAllowed max_concurrency ⊎ ((n : ℕ) × (max_concurrency ≡ some n) × (max_permits < n))
limit_cases none = inl (omega arith)
limit_cases (some n) = elim (Bool-cases (ltb max_permits n)) [
  | inl e ↦ inr (n, refl, ltb→lt _ _ e)
  | inr e ↦ inl (ltb→le _ _ e)
]

module _ {V : Type 0} (zarrs : DtypeNames) (race : Race) where
  -- Under an allowed limit, the walk is that with an open semaphore.
  pub walk_recursive-IsAllowed :
      (source : WalkSource V) (fuel : ℕ) (root_path : Text) (max_concurrency : Option ℕ)
      (recursive : Bool) (glob : Option GlobPredicate)
      → IsAllowed max_concurrency
      → walk_recursive zarrs race source fuel root_path max_concurrency recursive glob
        ≡ then_eager zarrs race (opened_semaphore max_concurrency) (
            walk_source zarrs race source fuel root_path
              (opened_semaphore max_concurrency)
              recursive
              glob)
  unfolding walk_recursive
  walk_recursive-IsAllowed source fuel root_path max_concurrency recursive glob h =
      ap (walk_with zarrs race source fuel root_path recursive glob)
        (new_semaphore-IsAllowed max_concurrency h)

  -- Phase C fills the nodes of a walk.
  pub then_eager-ok :
      (max_concurrency : Option ℕ) (nodes : List (NodeData V))
      → then_eager zarrs race (opened_semaphore max_concurrency) (some (ok nodes))
        ≡ done (ok (map (fill_node zarrs) nodes))
  then_eager-ok max_concurrency nodes =
      ap finish (eager_phase_lem zarrs race (opened_semaphore max_concurrency) nodes refl)

  then_eager-panic :
      (max_concurrency : Option ℕ) (walked : Option (Result (List (NodeData V))))
      → then_eager zarrs race (opened_semaphore max_concurrency) walked ≡ panic
      → ⊥
  then_eager-panic max_concurrency none e = cc
  then_eager-panic max_concurrency (some (err x)) e = cc
  then_eager-panic max_concurrency (some (ok nodes)) e =
      let filled = then_eager-ok max_concurrency nodes in cc

  -- For both kinds of source, whatever it answers, any group, both modes, any glob predicate, any
  -- scheduler and any fuel: the walk panics exactly if `max_concurrency` is given and is above
  -- `2 ^ 61 - 1`.
  pub walk_recursive_panics_iff :
      (source : WalkSource V) (fuel : ℕ) (root_path : Text) (max_concurrency : Option ℕ)
      (recursive : Bool) (glob : Option GlobPredicate)
      → (walk_recursive zarrs race source fuel root_path max_concurrency recursive glob ≡ panic)
        ↔ ((n : ℕ) × (max_concurrency ≡ some n) × (2_305_843_009_213_693_951 < n))
  unfolding walk_recursive
  walk_recursive_panics_iff source fuel root_path max_concurrency recursive glob = (
    λ e. elim (limit_cases max_concurrency) [
      | inl h ↦ absurd (
          then_eager-panic max_concurrency _ (
            sym (walk_recursive-IsAllowed source fuel root_path max_concurrency recursive glob h)
            ∙ e))
      | inr above ↦ above
    ],
    λ (n, f, above).
        ap (walk_with zarrs race source fuel root_path recursive glob)
          (ap new_semaphore f ∙ new_semaphore-above (some n) above),
  )
