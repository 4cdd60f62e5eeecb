-- ===== src/Walk/Snapshot.antt =====
-- `walk_icechunk_session_snapshot` of src/walk.rs: the walk over the nodes that an icechunk snapshot
-- lists. What the icechunk, serde_json and zarrs crates answer is a parameter, an `Upstream`.
mod Tests
pub mod Spec
pub mod Pass
pub mod Attach
pub mod Orphans
pub mod Lookup
pub mod Vars
pub mod Started
pub mod Placed
pub mod Names
pub mod Laws
use rustytree.Prelude.{
  ℕ, Bool, true, false, not, ◌&&◌, if◌then◌else◌, Option, none, some, List, [], ◌∷◌, ◌++◌, map,
  Text, codes, text_eq,
}
use mathlib.Core.Option.{get_or}
use rustytree.Error.{invalid_input, other, Result, ok, err, ◌>>=◌}
use rustytree.BTree.{insert, get, collect}
use rustytree.Json.{Json}
use rustytree.Glob.{GlobPredicate}
use rustytree.Zarrs.{Fallible, good, bad, map_err, ZarrsArray}
use rustytree.Array.Dtype.{DtypeNames}
use rustytree.Node.{VarMeta, NodeData, with_vars}
use rustytree.Walk.Paths.{normalize_path, parent_of}
use rustytree.Walk.Open.{var_meta}
use rustytree.Walk.Discover.{enters}

pub data IceNodeData : Type 0 where
  group array : IceNodeData

-- A `NodeSnapshot`: its path as a text, its kind, and the bytes of its `zarr.json`.
pub record NodeSnapshot : Type 0 where
  pub path : Text
  pub node_data : IceNodeData
  pub user_data : List ℕ

pub data GroupMetadata : Type 0 where
  v3 v2 : List (Text × Json) → GroupMetadata

pub record Upstream (V : Type 0) : Type 1 where
  -- `{:?}` of a text, `IcePath::new`, and `list_nodes` of the session.
  pub debug : Text → Text
  pub ice_path : Text → Fallible Text
  pub list_nodes : Text → Fallible (List (Fallible NodeSnapshot))
  -- `serde_json::from_slice`, and `Array::new_with_metadata` on the store of the session.
  pub group_metadata : List ℕ → Fallible GroupMetadata
  pub ArrayMetadata : Type 0
  pub array_metadata : List ℕ → Fallible ArrayMetadata
  pub new_with_metadata : Text → ArrayMetadata → Fallible (ZarrsArray V)

-- `.collect::<Result<Vec<_>>>()`: the first error, if there is one.
abbrev pub first_bad {ℓ} : {A : Type ℓ} → List (Fallible A) → Fallible (List A)
first_bad [] = good []
first_bad (bad e ∷ rs) = bad e
first_bad (good a ∷ rs) = elim (first_bad rs) [ good rest ↦ good (a ∷ rest) | bad e ↦ bad e ]

abbrev pub collect_results {ℓ} : {A : Type ℓ} → List (Result A) → Result (List A)
collect_results [] = ok []
collect_results (err e ∷ rs) = err e
collect_results (ok a ∷ rs) = collect_results rs >>= λ rest. ok (a ∷ rest)

abbrev pub attributes : GroupMetadata → List (Text × Json)
attributes (v3 attrs) = attrs
attributes (v2 attrs) = attrs

-- The two filters on the path of a group, or on the parent's path of an array.
unfoldable pub survives : Bool → Text → Option GlobPredicate → Text → Bool
survives recursive root_normalized glob path =
    if not recursive && not (text_eq path root_normalized) then false else enters glob path

-- The two collections that the loop over the snapshots fills.
abbrev pub Pass : Type 0 → Type 0
Pass V = List (Text × NodeData V) × List NodeSnapshot

abbrev pub empty_node : {V : Type 0} → Text → List (Text × Json) → NodeData V
empty_node path attrs = record { path = path; attrs = attrs; vars = [] }

module _ {V : Type 0} (upstream : Upstream V) where
  unfoldable pub parse_group_attrs : List ℕ → Text → Result (List (Text × Json))
  parse_group_attrs [] path = ok []
  parse_group_attrs (b ∷ user_data) path = do
    metadata ←
        map_err
          (λ e.
            other (
              codes "icechunk: failed to parse group zarr.json at " ++ (path ++ (codes ": " ++ e))))
          (upstream.group_metadata (b ∷ user_data))
    ok (collect (attributes metadata))

  unfoldable pub build_var_meta_from_snapshot :
      DtypeNames → NodeSnapshot → Text → Result (VarMeta V)
  build_var_meta_from_snapshot zarrs snap array_path = do
    metadata ←
        map_err
          (λ e. other (
            codes "icechunk: failed to parse array zarr.json at "
            ++ (array_path ++ (codes ": " ++ e))))
          (upstream.array_metadata snap.user_data)
    opened ←
        map_err
          (λ e. other (
            codes "icechunk: failed to construct Array from snapshot for "
            ++ (array_path ++ (codes ": " ++ e))))
          (upstream.new_with_metadata array_path metadata)
    ok (var_meta zarrs array_path opened)

  -- `list_nodes`, with every node of it.
  unfoldable pub list_snapshots : Text → Result (List NodeSnapshot)
  list_snapshots root_path = do
    parent ←
        map_err
          (λ e. invalid_input (
            codes "icechunk: invalid root path "
            ++ (upstream.debug root_path ++ (codes ": " ++ e))))
          (upstream.ice_path root_path)
    nodes ←
        map_err
          (λ e. other (codes "icechunk: list_nodes(" ++ (root_path ++ (codes ") failed: " ++ e))))
          (upstream.list_nodes parent)
    map_err (λ e. other (codes "icechunk: snapshot enumeration failed: " ++ e)) (first_bad nodes)

  -- One round of the loop over the snapshots, by the kind of the node and by what the filters say
  -- of its path and of its parent's path.
  unfoldable pub pass_one : IceNodeData → Bool → Bool → NodeSnapshot → Pass V → Result (Pass V)
  pass_one group false in_parent snap (groups, arrays) = ok (groups, arrays)
  pass_one group true in_parent snap (groups, arrays) = do
    attrs ← parse_group_attrs snap.user_data snap.path
    ok (insert snap.path (empty_node snap.path attrs) groups, arrays)
  pass_one array in_path false snap (groups, arrays) = ok (groups, arrays)
  pass_one array in_path true snap (groups, arrays) = ok (groups, arrays ++ snap ∷ [])

  unfoldable pub first_pass : (Text → Bool) → List NodeSnapshot → Pass V → Result (Pass V)
  first_pass keeps [] state = ok state
  first_pass keeps (snap ∷ snaps) state =
      pass_one snap.node_data (keeps snap.path) (keeps (parent_of snap.path)) snap state
      >>= first_pass keeps snaps

  -- The job of one parent group; a job does not panic, so that joining it succeeds.
  unfoldable pub group_job :
      DtypeNames → Text × List NodeSnapshot → Result (Text × List (VarMeta V))
  group_job zarrs (parent_path, snaps) = do
    vars ← collect_results (map (λ snap. build_var_meta_from_snapshot zarrs snap snap.path) snaps)
    ok (parent_path, vars)

-- `by_parent.entry(parent_of(&array_path)).or_default().push(snap)`
unfoldable pub by_parent :
    List NodeSnapshot → List (Text × List NodeSnapshot) → List (Text × List NodeSnapshot)
by_parent [] m = m
by_parent (snap ∷ arrays) m =
    let parent = parent_of snap.path in
    by_parent arrays (insert parent (get_or (get parent m) [] ++ snap ∷ []) m)

-- One round of the loop over the jobs, by the entry of the parent group.
abbrev pub attach_at :
    {V : Type 0}
    → Option (NodeData V)
    → Text
    → List (VarMeta V)
    → List (Text × NodeData V)
    → Result (List (Text × NodeData V))
attach_at (some node) parent_path vars groups = ok (insert parent_path (with_vars node vars) groups)
attach_at none parent_path [] groups = ok groups
attach_at none parent_path (_ ∷ _) groups =
    err (other (codes "icechunk: arrays under " ++ (parent_path ++ codes " have no parent group")))

unfoldable pub attach :
    {V : Type 0}
    → List (Text × List (VarMeta V))
    → List (Text × NodeData V)
    → Result (List (Text × NodeData V))
attach [] groups = ok groups
attach ((parent_path, vars) ∷ jobs) groups =
    attach_at (get parent_path groups) parent_path vars groups >>= attach jobs

-- `groups.into_values().collect()`
abbrev pub into_values : {V : Type 0} → List (Text × NodeData V) → List (NodeData V)
into_values groups = map (λ e. e.1) groups

unfoldable pub walk_icechunk_session_snapshot :
    {V : Type 0}
    → Upstream V
    → DtypeNames
    → Text
    → Bool
    → Option GlobPredicate
    → Result (List (NodeData V))
walk_icechunk_session_snapshot upstream zarrs root_path recursive glob = do
  snapshots ← list_snapshots upstream root_path
  state ←
      first_pass upstream (survives recursive (normalize_path root_path) glob) snapshots ([], [])
  jobs ← collect_results (map (group_job upstream zarrs) (by_parent state.1 []))
  groups ← attach jobs state.0
  ok (into_values groups)
