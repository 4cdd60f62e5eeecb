-- ===== src/Walk/Recursive.antt =====
-- `walk_recursive` of src/walk.rs, the entry point of the walk.
pub mod Limit
pub mod Laws
pub mod Sample
pub mod Single
mod Tests
use rustytree.Prelude.{ltb, if◌then◌else◌, ℕ, max, Bool, false, Option, none, some, List, Text}
use mathlib.Core.Option.{get_or}
use rustytree.Error.{Result, ok, err}
use rustytree.Glob.{GlobPredicate}
use rustytree.Zarrs.{Storage}
use rustytree.Array.Dtype.{DtypeNames}
use rustytree.Node.{NodeData}
use rustytree.Walk.Join.{Race}
use rustytree.Walk.Discover.{Semaphore, walk_via_zarrs}
use rustytree.Walk.Eager.{eager_phase}
use rustytree.Walk.Snapshot.{Upstream, walk_icechunk_session_snapshot}

-- What the walk reads from: `WalkSource` of src/store.rs, whose bundle is the answers of its session.
pub data WalkSource (V : Type 0) : Type 1 where
  icechunk : Upstream V → WalkSource V
  vanilla : Storage V → WalkSource V

-- A result, a walk that is still going on when the fuel ends, or a panic.
pub data Outcome (V : Type 0) : Type 0 where
  done : Result (List (NodeData V)) → Outcome V
  out_of_fuel : Outcome V
  panic : Outcome V

-- `Semaphore::MAX_PERMITS` of tokio, `usize::MAX >> 3` of 64 bits.
abbrev pub max_permits : ℕ
max_permits = 2_305_843_009_213_693_951

-- `Semaphore::new(max_concurrency.unwrap_or(32).max(1))`, which panics for more permits than
-- `MAX_PERMITS`.
unfoldable pub new_semaphore : Option ℕ → Option Semaphore
new_semaphore max_concurrency =
    let permits = max (get_or max_concurrency 32) 1 in
    if ltb max_permits permits then none else some (record { permits = permits; closed = false })

abbrev pub finish : {V : Type 0} → Option (Result (List (NodeData V))) → Outcome V
finish none = panic
finish (some r) = done r

module _ {V : Type 0} (zarrs : DtypeNames) (race : Race) where
  -- Phase C on the nodes of the walk.
  abbrev pub then_eager : Semaphore → Option (Result (List (NodeData V))) → Outcome V
  then_eager semaphore none = out_of_fuel
  then_eager semaphore (some (err e)) = done (err e)
  then_eager semaphore (some (ok nodes)) = finish (eager_phase zarrs race semaphore nodes)

  -- The nodes, by the kind of the source.
  abbrev pub walk_source :
      WalkSource V
      → ℕ
      → Text
      → Semaphore
      → Bool
      → Option GlobPredicate
      → Option (Result (List (NodeData V)))
  walk_source (icechunk upstream) fuel root_path semaphore recursive glob =
      some (walk_icechunk_session_snapshot upstream zarrs root_path recursive glob)
  walk_source (vanilla store) fuel root_path semaphore recursive glob =
      walk_via_zarrs race store semaphore zarrs fuel root_path recursive glob

  -- The walk, by what `Semaphore::new` gives.
  abbrev pub walk_with :
      WalkSource V → ℕ → Text → Bool → Option GlobPredicate → Option Semaphore → Outcome V
  walk_with source fuel root_path recursive glob none = panic
  walk_with source fuel root_path recursive glob (some semaphore) =
      then_eager semaphore (walk_source source fuel root_path semaphore recursive glob)

  unfoldable pub walk_recursive :
      WalkSource V → ℕ → Text → Option ℕ → Bool → Option GlobPredicate → Outcome V
  walk_recursive source fuel root_path max_concurrency recursive glob =
      walk_with source fuel root_path recursive glob (new_semaphore max_concurrency)
