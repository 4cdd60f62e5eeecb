-- ===== src/Walk/Snapshot/Spec.antt =====
-- What the walk of a snapshot should keep, and when the nodes of a snapshot can be read.
use rustytree.Prelude.{◌≡◌, Bool, true, false, List, [], ◌∷◌, Text, All, Occurs}
use rustytree.Error.{ok}
use rustytree.Json.{Json}
use rustytree.Array.Dtype.{DtypeNames}
use rustytree.Node.{VarMeta}
use rustytree.Walk.Paths.{parent_of}
use rustytree.Walk.Snapshot.{
  IceNodeData, group, array, NodeSnapshot, Upstream, parse_group_attrs,
  build_var_meta_from_snapshot,
}

-- One path more if a node is a group that the filters keep, and one array more likewise.
abbrev pub group_if : IceNodeData → Bool → Text → List Text → List Text
group_if group true path rest = path ∷ rest
group_if group false path rest = rest
group_if array keep path rest = rest

abbrev pub array_if : IceNodeData → Bool → NodeSnapshot → List NodeSnapshot → List NodeSnapshot
array_if array true snap rest = snap ∷ rest
array_if array false snap rest = rest
array_if group keep snap rest = rest

-- The paths of the groups that the filters keep, and the arrays whose parent they keep.
abbrev pub kept_groups : (Text → Bool) → List NodeSnapshot → List Text
kept_groups keeps [] = []
kept_groups keeps (snap ∷ snaps) =
    group_if snap.node_data (keeps snap.path) snap.path (kept_groups keeps snaps)

abbrev pub kept_arrays : (Text → Bool) → List NodeSnapshot → List NodeSnapshot
kept_arrays keeps [] = []
kept_arrays keeps (snap ∷ snaps) =
    array_if snap.node_data (keeps (parent_of snap.path)) snap (kept_arrays keeps snaps)

module _ {V : Type 0} (upstream : Upstream V) (zarrs : DtypeNames) where
  -- The attributes of a group parse, and the metadata of an array builds a `VarMeta`.
  abbrev pub Reads : IceNodeData → NodeSnapshot → Type 0
  Reads group snap =
      (attrs : List (Text × Json)) × (parse_group_attrs upstream snap.user_data snap.path
        ≡ ok attrs)
  Reads array snap =
      (var : VarMeta V) × (build_var_meta_from_snapshot upstream zarrs snap snap.path ≡ ok var)

  abbrev pub ReadsAll : List NodeSnapshot → Type 0
  ReadsAll snaps = All (λ snap. Reads snap.node_data snap) snaps

-- The parent of an array is a group of the snapshot.
abbrev pub HasParent : List NodeSnapshot → IceNodeData → NodeSnapshot → Type 0
HasParent snaps group snap = Unit
HasParent snaps array snap = Occurs (parent_of snap.path) (kept_groups (λ _. true) snaps)

abbrev pub HaveParents : List NodeSnapshot → Type 0
HaveParents snaps = All (λ snap. HasParent snaps snap.node_data snap) snaps
