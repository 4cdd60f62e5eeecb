-- ===== src/Walk/Discover.antt =====
-- `discover_paths` and `walk_via_zarrs` of src/walk.rs: the walk of a vanilla Zarr v3 store. A call
-- of `discover_paths` descends into the child groups that the store lists, so it has fuel; `none`
-- is a call that ran out of it.
mod Tests
pub mod Permits
pub mod Spec
pub mod Laws
pub mod Matches
use rustytree.Prelude.{
  ℕ, zero, suc, Bool, true, false, if◌then◌else◌, Option, none, some, List, [], ◌∷◌, ◌++◌, map,
  keep, Text, codes,
}
use mathlib.Core.Option
use rustytree.Error.{RustytreeError, other, Result, ok, err, ◌>>=◌}
use rustytree.Glob.{GlobPredicate, could_descendant_match}
use rustytree.Zarrs.{map_err, ZarrsGroup, Storage}
use rustytree.Array.Dtype.{DtypeNames}
use rustytree.Node.{NodeData}
use rustytree.Walk.Join.{Race, try_join_all}
use rustytree.Walk.Open.{or_group_err, open_single}

-- A `tokio::sync::Semaphore`: its permits, and whether it is closed.
pub record Semaphore : Type 0 where
  pub permits : ℕ
  pub closed : Bool

-- `semaphore.acquire().await.map_err(…)?`; the wait for a permit is not visible in a result.
abbrev pub acquire : Semaphore → Text → Result (Unit {0})
acquire semaphore what = if semaphore.closed then err (other what) else ok tt

-- `glob.is_none_or(|g| g.could_descendant_match(p))`
abbrev pub enters : Option GlobPredicate → Text → Bool
enters none path = true
enters (some g) path = could_descendant_match g path

-- `for sub in sub_results.drain(..) { out.extend(sub) }`
abbrev pub concat : List (List Text) → List Text
concat [] = []
concat (sub ∷ subs) = sub ++ concat subs

-- The results of calls none of which ran out of fuel.
abbrev pub all_returned {ℓ} : {A : Type ℓ} → List (Option A) → Option (List A)
all_returned [] = some []
all_returned (none ∷ xs) = none
all_returned (some x ∷ xs) = Option.map (◌∷◌ x) (all_returned xs)

-- The block that holds a permit.
unfoldable pub child_paths : {V : Type 0} → Storage V → Semaphore → Text → Result (List Text)
child_paths store semaphore path = do
  permit ← acquire semaphore (codes "walk semaphore closed unexpectedly")
  group ← or_group_err path (codes " during walk") (store.open_group path)
  map_err (λ e. other (codes "failed to list child groups in " ++ (path ++ (codes ": " ++ e))))
      group.child_group_paths

-- The rest of the body: the path itself, then what the calls on the children found.
abbrev pub extend : Race → Text → List (Result (List Text)) → Result (List Text)
extend race path results = do
  sub_results ← try_join_all race results
  ok (path ∷ concat sub_results)

-- `discover` is the call on a child.
abbrev pub descend :
    Race
    → (Text → Option (Result (List Text)))
    → Option GlobPredicate
    → Text
    → Result (List Text)
    → Option (Result (List Text))
descend race discover glob path (err e) = some (err e)
descend race discover glob path (ok children) =
    Option.map (extend race path) (all_returned (map discover (keep (enters glob) children)))

module _ {V : Type 0} (race : Race) (store : Storage V) (semaphore : Semaphore) where
  unfoldable pub discover_paths : ℕ → Option GlobPredicate → Text → Option (Result (List Text))
  discover_paths zero glob path = none
  discover_paths (suc fuel) glob path =
      descend race (discover_paths fuel glob) glob path (child_paths store semaphore path)

  -- `walk_via_zarrs`, once the paths are there.
  abbrev pub open_all : DtypeNames → Result (List Text) → Result (List (NodeData V))
  open_all zarrs paths = do
    paths ← paths
    try_join_all race (map (open_single zarrs race store) paths)

  unfoldable pub walk_via_zarrs :
      DtypeNames → ℕ → Text → Bool → Option GlobPredicate → Option (Result (List (NodeData V)))
  walk_via_zarrs zarrs fuel root_path recursive glob =
      Option.map (open_all zarrs)
        (if recursive then discover_paths fuel glob root_path else some (ok (root_path ∷ [])))
