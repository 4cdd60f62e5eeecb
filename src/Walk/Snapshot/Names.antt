-- ===== src/Walk/Snapshot/Names.antt =====
-- The names of the variables that the snapshot walk of src/walk.rs gives a group.
use rustytree.Prelude.{◌≡◌, refl, ap₂, ◌∙◌, List, [], ◌∷◌, map, Text, All}
use rustytree.Error.{Result, ok, err, RustytreeError, ◌>>=◌}
use rustytree.Error.Ensures.{Ensures, Ensures-ok, Ensures-bind}
use rustytree.Zarrs.{Fallible, good, bad, map_err, ZarrsArray}
use rustytree.Array.Dtype.{DtypeNames}
use rustytree.Node.{VarMeta, NodeData}
use rustytree.Walk.Paths.{array_name}
use rustytree.Walk.Open.{var_meta}
use rustytree.Walk.Eager.Phase.{fill_node}
use rustytree.Walk.Eager.Names.{var_names, fill_node-var_names}
use rustytree.Walk.Snapshot.{NodeSnapshot, Upstream, build_var_meta_from_snapshot, collect_results}
use rustytree.Walk.Snapshot.Started.{arrays_in}
use rustytree.Walk.Snapshot.Lookup.{below, build}
use rustytree.Walk.Snapshot.Placed.{HasItsArrays}

-- The names of the arrays that the snapshot has below the group, in its order.
abbrev pub names_below : List NodeSnapshot → Text → List Text
names_below snaps path = map (λ snap. array_name snap.path) (below path (arrays_in snaps))

module _ {V : Type 0} (zarrs : DtypeNames) where
  module _ (upstream : Upstream V) where
    abbrev IsNamed : NodeSnapshot → VarMeta V → Type 0
    IsNamed snap var = var.name ≡ array_name snap.path

    build-IsNamed : (snap : NodeSnapshot) → Ensures (IsNamed snap) (build upstream zarrs snap)
    unfolding build_var_meta_from_snapshot var_meta
    build-IsNamed snap = parsed _ _ (upstream.array_metadata snap.user_data)
      where
        opened :
            (f : Text → RustytreeError) (r : Fallible (ZarrsArray V))
            → Ensures (IsNamed snap) (map_err f r >>= λ array. ok (var_meta zarrs snap.path array))
        opened f (good array) = refl
        opened f (bad x) = tt

        parsed :
            (f g : Text → RustytreeError) (r : Fallible upstream.ArrayMetadata)
            → Ensures (IsNamed snap) (
                map_err f r >>= λ metadata.
                map_err g (upstream.new_with_metadata snap.path metadata) >>= λ array.
                ok (var_meta zarrs snap.path array))
        parsed f g (good metadata) = opened g (upstream.new_with_metadata snap.path metadata)
        parsed f g (bad x) = tt

    abbrev AreNamed : List NodeSnapshot → List (VarMeta V) → Type 0
    AreNamed snaps vars = map (λ v. v.name) vars ≡ map (λ snap. array_name snap.path) snaps

    built-AreNamed :
        (snaps : List NodeSnapshot)
        → Ensures (AreNamed snaps) (collect_results (map (build upstream zarrs) snaps))
    built-AreNamed [] = refl
    built-AreNamed (snap ∷ snaps) =
        first (build upstream zarrs snap) (build-IsNamed snap) (built-AreNamed snaps)
      where
        first :
            (r : Result (VarMeta V))
            → Ensures (IsNamed snap) r
            → Ensures (AreNamed snaps) (collect_results (map (build upstream zarrs) snaps))
            → Ensures
                (AreNamed (snap ∷ snaps))
                (collect_results (r ∷ map (build upstream zarrs) snaps))
        first (ok var) h hs =
            Ensures-bind (AreNamed snaps) (AreNamed (snap ∷ snaps))
              (collect_results (map (build upstream zarrs) snaps)) (λ rest. ok (var ∷ rest)) hs
              (λ vars t. ap₂ ◌∷◌ h t)
        first (err x) h hs = tt

    -- The filled nodes have variables by the names of their arrays.
    pub filled-names_below :
        (snaps : List NodeSnapshot) (nodes : List (NodeData V))
        → All (HasItsArrays upstream zarrs snaps) nodes
        → All (λ node. var_names node ≡ names_below snaps node.path) (map (fill_node zarrs) nodes)
    filled-names_below snaps [] h = tt
    filled-names_below snaps (node ∷ nodes) (h, hs) = (
      fill_node-var_names zarrs node
          ∙ Ensures-ok (AreNamed (below node.path (arrays_in snaps))) _ node.vars
              (built-AreNamed (below node.path (arrays_in snaps))) h,
      filled-names_below snaps nodes hs,
    )
