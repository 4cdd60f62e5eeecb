-- ===== src/Walk/Snapshot/Laws.antt =====
-- `walk_icechunk_session_snapshot` on a session whose nodes can be read.
use rustytree.Prelude.{
  ◌≡◌, refl, sym, subst, ap, ap₂, ◌∙◌, ◌↔◌, inl, inr, Bool, Bool-cases, true, Option, List, [], ◌∷◌,
  map, Text, All, All-imp, Occurs,
}
use rustytree.Error.{ok}
use rustytree.BTree.{keys}
use rustytree.BTree.Laws.{Before, IsSorted}
use rustytree.Array.Dtype.{DtypeNames}
use rustytree.Glob.{GlobPredicate}
use rustytree.Node.{NodeData}
use rustytree.Walk.Paths.{normalize_path, parent_of}
use rustytree.Walk.Snapshot.{
  IceNodeData, group, array, NodeSnapshot, Upstream, survives, list_snapshots, into_values,
  walk_icechunk_session_snapshot,
}
use rustytree.Walk.Snapshot.Spec.{
  group_if, array_if, kept_groups, kept_arrays, Reads, ReadsAll, HasParent, HaveParents,
}
use rustytree.Walk.Snapshot.Pass.{IsNodeMap, first_pass_lem}
use rustytree.Walk.Snapshot.Attach.{GoodArray, built_jobs, attach_lem}

-- Each path stands before the next, so that a parent lands before its children.
abbrev pub Ascending : List Text → Type 0
Ascending [] = Unit
Ascending (p ∷ []) = Unit
Ascending (p ∷ q ∷ ps) = Before p q × Ascending (q ∷ ps)

keys-Ascending : {V : Type 0} (m : List (Text × V)) → IsSorted m → Ascending (keys m)
keys-Ascending [] s = tt
keys-Ascending (e ∷ []) s = tt
keys-Ascending (e ∷ f ∷ m) (b, s) = (b, keys-Ascending (f ∷ m) s)

values-path :
    {V : Type 0} (groups : List (Text × NodeData V))
    → All (λ e. e.1.path ≡ e.0) groups
    → map (λ n. n.path) (into_values groups) ≡ keys groups
values-path [] h = refl
values-path (e ∷ groups) (here, there) = ap₂ ◌∷◌ here (values-path groups there)

-- A group that is kept by no filter is kept by one that says yes to its path.
kept_step :
    (kind : IceNodeData) (keeps : Text → Bool) (path p : Text) (all kept : List Text)
    → keeps p ≡ true
    → (Occurs p all → Occurs p kept)
    → Occurs p (group_if kind true path all)
    → Occurs p (group_if kind (keeps path) path kept)
kept_step array keeps path p all kept h later o = later o
kept_step group keeps path p all kept h later (inl e) = rw (ap keeps (sym e) ∙ h) (inl e)
kept_step group keeps path p all kept h later (inr o) = elim (Bool-cases (keeps path)) [
  | inl t ↦ rw t (inr (later o))
  | inr f ↦ rw f (later o)
]

pub kept_by_filter :
    (keeps : Text → Bool) (p : Text) (snaps : List NodeSnapshot)
    → keeps p ≡ true
    → Occurs p (kept_groups (λ _. true) snaps)
    → Occurs p (kept_groups keeps snaps)
kept_by_filter keeps p [] h o = absurd o
kept_by_filter keeps p (snap ∷ snaps) h o =
    kept_step snap.node_data keeps snap.path p (kept_groups (λ _. true) snaps)
      (kept_groups keeps snaps) h (λ o. kept_by_filter keeps p snaps h o) o

module _ {V : Type 0} (upstream : Upstream V) (zarrs : DtypeNames) where
  -- The kept arrays build, and their parents are kept groups.
  kept_arrays_step :
      (kind : IceNodeData) (keeps : Text → Bool) (all : List NodeSnapshot) (snap : NodeSnapshot)
      (rest : List NodeSnapshot)
      → Reads upstream zarrs kind snap
      → HasParent all kind snap
      → All (GoodArray upstream zarrs (λ p. Occurs p (kept_groups keeps all))) rest
      → All
          (GoodArray upstream zarrs (λ p. Occurs p (kept_groups keeps all)))
          (array_if kind (keeps (parent_of snap.path)) snap rest)
  kept_arrays_step group keeps all snap rest r h later = later
  kept_arrays_step array keeps all snap rest r h later =
      elim (Bool-cases (keeps (parent_of snap.path))) [
        | inl t ↦ rw t ((kept_by_filter keeps (parent_of snap.path) all t h, r), later)
        | inr f ↦ rw f later
      ]

  kept_arrays-GoodArray :
      (keeps : Text → Bool) (all snaps : List NodeSnapshot)
      → ReadsAll upstream zarrs snaps
      → All (λ snap. HasParent all snap.node_data snap) snaps
      → All
          (GoodArray upstream zarrs (λ p. Occurs p (kept_groups keeps all)))
          (kept_arrays keeps snaps)
  kept_arrays-GoodArray keeps all [] r h = tt
  kept_arrays-GoodArray keeps all (snap ∷ snaps) (r, rs) (h, hs) =
      kept_arrays_step snap.node_data keeps all snap (kept_arrays keeps snaps) r h
        (kept_arrays-GoodArray keeps all snaps rs hs)

  -- For a session that lists `snaps`, each of which can be read, each array with its parent among
  -- the groups: the walk returns, in ascending order of the paths, one node for each group that
  -- the two filters keep, and none for another path.
  pub snapshot-kept_groups :
      (root_path : Text) (recursive : Bool) (glob : Option GlobPredicate)
      (snaps : List NodeSnapshot)
      → list_snapshots upstream root_path ≡ ok snaps
      → ReadsAll upstream zarrs snaps
      → HaveParents snaps
      → (nodes : List (NodeData V)) × ((walk_icechunk_session_snapshot upstream zarrs root_path
              recursive glob
            ≡ ok nodes)
          × (Ascending (map (λ n. n.path) nodes)
              × ((p : Text)
                  → Occurs p (map (λ n. n.path) nodes)
                    ↔ Occurs p
                        (kept_groups (survives recursive (normalize_path root_path) glob) snaps))))
  unfolding walk_icechunk_session_snapshot
  snapshot-kept_groups root_path recursive glob snaps listed r h =
      let keeps = survives recursive (normalize_path root_path) glob in
      let (state, (e, c)) = first_pass_lem upstream zarrs keeps snaps ([], []) r no_nodes in
      let good =
        subst (All (GoodArray upstream zarrs (λ p. Occurs p (kept_groups keeps snaps))))
          (sym c.arrays_eq) (kept_arrays-GoodArray keeps snaps snaps r h) in
      let (jobs, (f, parents)) =
        built_jobs upstream zarrs (λ p. Occurs p (kept_groups keeps snaps)) state.1 good in
      let (final, (g, (n, same))) = attach_lem jobs state.0 c.node_map (
        All-imp (λ j. Occurs j.0 (kept_groups keeps snaps)) (λ j. Occurs j.0 (keys state.0))
          (λ j o. (c.groups_iff j.0).1 (inr o)) jobs parents) in
      let paths = values-path final n.by_path ∙ same in
      (
        into_values final,
        (
          rw (listed, e, f, g) refl,
          (
            subst Ascending (sym (values-path final n.by_path)) (keys-Ascending final n.sorted),
            λ p. (
              λ o. elim ((c.groups_iff p).0 (subst (Occurs p) paths o)) [
                | inl x ↦ absurd x
                | inr o ↦ o
              ],
              λ o. subst (Occurs p) (sym paths) ((c.groups_iff p).1 (inr o)),
            ),
          ),
        ),
      )
    where
      no_nodes : IsNodeMap {V = V} []
      no_nodes = record { sorted = tt; by_path = tt }
