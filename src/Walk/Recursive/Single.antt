-- ===== src/Walk/Recursive/Single.antt =====
-- `walk_recursive` of src/walk.rs without recursion, on both kinds of source.
use rustytree.Prelude.{◌≡◌, true, List, Text, Occurs}
use rustytree.Error.{ok}
use rustytree.Array.Dtype.{DtypeNames}
use rustytree.Walk.Join.{Race}
use rustytree.Walk.Paths.{normalize_path}
use rustytree.Walk.Snapshot.{NodeSnapshot, list_snapshots}
use rustytree.Walk.Snapshot.Spec.{kept_groups, ReadsAll, HaveParents}
use rustytree.Walk.Recursive.{WalkSource, icechunk, vanilla}
use rustytree.Walk.Recursive.Laws.{Opens}

module _ {V : Type 0} (zarrs : DtypeNames) (race : Race) where
  -- The source has the group: it opens in a vanilla store, or the snapshot of a session that can be
  -- read lists it.
  abbrev pub HasGroup : WalkSource V → Text → Type 0
  HasGroup (vanilla store) path = Opens zarrs race store path
  HasGroup (icechunk upstream) path =
      (snaps : List NodeSnapshot) × (list_snapshots upstream path ≡ ok snaps)
      × ReadsAll upstream zarrs snaps
      × HaveParents snaps
      × Occurs (normalize_path path) (kept_groups (λ _. true) snaps)

  -- The path of the node of a group.
  abbrev pub node_path : WalkSource V → Text → Text
  node_path (vanilla store) path = path
  node_path (icechunk upstream) path = normalize_path path
