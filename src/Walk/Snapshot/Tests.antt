-- ===== src/Walk/Snapshot/Tests.antt =====
-- A session with a root, a group and an array in it.
use rustytree.Prelude.{
  ℕ, ◌≡◌, refl, inl, ◌↔◌, true, none, List, [], ◌∷◌, map, Text, codes, Occurs, All, rsplit_once,
}
use rustytree.Error.{ok, err, other}
use rustytree.BTree.{collect, insert, get, text_cmp}
use rustytree.Node.{NodeData, VarMeta}
use rustytree.Walk.Paths.{normalize_path, parent_of}
use rustytree.Walk.Open.{var_meta}
use rustytree.Walk.Sample.{
  int16_names, x_array, snaps, session, snaps_listed, snaps-ReadsAll, snaps-HaveParents,
}
use rustytree.Walk.Snapshot.{
  survives, first_pass, pass_one, by_parent, group_job, parse_group_attrs,
  build_var_meta_from_snapshot, list_snapshots, attach, walk_icechunk_session_snapshot,
}
use rustytree.Walk.Snapshot.Spec.{kept_groups}
use rustytree.Walk.Snapshot.Pass.{IsNodeMap}
use rustytree.Walk.Snapshot.Orphans.{IsRuntimeError, attach-orphan}
use rustytree.Walk.Snapshot.Placed.{HasItsArrays, snapshot-HasItsArrays}
use rustytree.Walk.Snapshot.Laws.{Ascending, snapshot-kept_groups}

abbrev x_meta : VarMeta ℕ
x_meta = var_meta int16_names (codes "/b/x") x_array

orphan_text :
    attach ((codes "/b", x_meta ∷ []) ∷ []) []
    ≡ err (other (codes "icechunk: arrays under /b have no parent group"))
unfolding attach get
orphan_text = refl

no_nodes-IsNodeMap : IsNodeMap {V = ℕ} []
no_nodes-IsNodeMap = record { sorted = tt; by_path = tt }

attach-orphan_example : IsRuntimeError (attach ((codes "/b", x_meta ∷ []) ∷ []) [])
attach-orphan_example =
    attach-orphan ((codes "/b", x_meta ∷ []) ∷ []) [] (codes "/b") x_meta [] no_nodes-IsNodeMap
      (inl refl) (λ o. o)

snapshot-kept_groups_example :
    (nodes : List (NodeData ℕ)) × ((walk_icechunk_session_snapshot session int16_names
          (codes "/")
          true
          none
        ≡ ok nodes)
      × (Ascending (map (λ n. n.path) nodes)
          × ((p : Text)
              → Occurs p (map (λ n. n.path) nodes)
                ↔ Occurs p (kept_groups (survives true (normalize_path (codes "/")) none) snaps))))
snapshot-kept_groups_example =
    snapshot-kept_groups session int16_names (codes "/") true none snaps snaps_listed snaps-ReadsAll
      snaps-HaveParents

abbrev node_at : Text → List (VarMeta ℕ) → NodeData ℕ
node_at path vars = record { path = path; attrs = collect []; vars = vars }

-- The nodes of the session, with the attributes of the root as they come from no bytes.
abbrev walked_nodes : List (NodeData ℕ)
walked_nodes =
    record { path = codes "/"; attrs = []; vars = [] }
    ∷ node_at (codes "/a") (var_meta int16_names (codes "/a/x") x_array ∷ [])
    ∷ []

walked : walk_icechunk_session_snapshot session int16_names (codes "/") true none ≡ ok walked_nodes
unfolding walk_icechunk_session_snapshot list_snapshots first_pass pass_one survives
    parse_group_attrs by_parent group_job build_var_meta_from_snapshot attach insert get text_cmp
    parent_of rsplit_once
walked = refl

snapshot-HasItsArrays_example : All (HasItsArrays session int16_names snaps) walked_nodes
snapshot-HasItsArrays_example =
    snapshot-HasItsArrays session int16_names snaps (codes "/") true none walked_nodes snaps_listed
      walked
