-- ===== src/Walk/Snapshot/Started.antt =====
-- The loop over the snapshots of src/walk.rs, for the arrays that it keeps.
use rustytree.Prelude.{
  ◌≡◌, refl, sym, subst, ap, ◌∙◌, inl, inr, Bool, Bool-cases, true, false, List, [], ◌∷◌, ◌++◌,
  append-nil, append_assoc, Text, text_cases, All,
}
use rustytree.Error.{Result, ok, err, ◌>>=◌}
use rustytree.Error.Ensures.{Ensures, Ensures-bind}
use rustytree.BTree.{insert}
use rustytree.BTree.Laws.{IsSorted, insert-IsSorted}
use rustytree.BTree.Keys.{All-insert}
use rustytree.Array.Dtype.{DtypeNames}
use rustytree.Json.{Json}
use rustytree.Node.{NodeData}
use rustytree.Walk.Paths.{parent_of}
use rustytree.Walk.Snapshot.{
  IceNodeData, group, array, NodeSnapshot, Upstream, Pass, empty_node, parse_group_attrs, pass_one,
  first_pass,
}
use rustytree.Walk.Snapshot.Spec.{array_if, kept_arrays}
use rustytree.Walk.Snapshot.Pass.{array_if-append}
use rustytree.Walk.Snapshot.Lookup.{below}

-- The arrays of a snapshot.
abbrev pub arrays_in : List NodeSnapshot → List NodeSnapshot
arrays_in snaps = kept_arrays (λ _. true) snaps

-- The arrays below a group that the filters keep are kept.
below_step :
    (path : Text) (keeps : Text → Bool) (kind : IceNodeData) (snap : NodeSnapshot)
    (kept rest : List NodeSnapshot)
    → keeps path ≡ true
    → below path kept ≡ below path rest
    → below path (array_if kind (keeps (parent_of snap.path)) snap kept)
      ≡ below path (array_if kind true snap rest)
below_step path keeps group snap kept rest k e = e
below_step path keeps array snap kept rest k e = elim (text_cases (parent_of snap.path) path) [
  | inl (p, f) ↦ rw (ap keeps p ∙ k, f) (ap (◌∷◌ snap) e)
  | inr (ne, f) ↦ elim (Bool-cases (keeps (parent_of snap.path))) [
    | inl t ↦ rw (t, f) e
    | inr u ↦ rw (u, f) e
  ]
]

pub below-kept_arrays :
    (path : Text) (keeps : Text → Bool) (snaps : List NodeSnapshot)
    → keeps path ≡ true
    → below path (kept_arrays keeps snaps) ≡ below path (arrays_in snaps)
below-kept_arrays path keeps [] k = refl
below-kept_arrays path keeps (snap ∷ snaps) k =
    below_step path keeps snap.node_data snap (kept_arrays keeps snaps) (arrays_in snaps) k
      (below-kept_arrays path keeps snaps k)

-- A map of kept groups that have no variables yet.
pub record IsStarted {V : Type 0} (keeps : Text → Bool) (groups : List (Text × NodeData V))
    : Type 0 where
  pub sorted : IsSorted groups
  pub fresh : All (λ e. (keeps e.0 ≡ true) × ((e.1.path ≡ e.0) × (e.1.vars ≡ []))) groups

module _ {V : Type 0} (upstream : Upstream V) (zarrs : DtypeNames) (keeps : Text → Bool) where
  -- A state that the loop over the snapshots ends with, from one that holds `arrays`.
  abbrev pub Passed : List NodeSnapshot → List NodeSnapshot → Pass V → Type 0
  Passed arrays more final = IsStarted keeps final.0 × (final.1 ≡ arrays ++ more)

  IsStarted-insert :
      (path : Text) (attrs : List (Text × Json)) (groups : List (Text × NodeData V))
      → keeps path ≡ true
      → IsStarted keeps groups
      → IsStarted keeps (insert path (empty_node path attrs) groups)
  IsStarted-insert path attrs groups k s = record {
    sorted = insert-IsSorted path (empty_node path attrs) groups s.sorted;
    fresh =
        All-insert (λ e. (keeps e.0 ≡ true) × ((e.1.path ≡ e.0) × (e.1.vars ≡ []))) path
          (empty_node path attrs) groups (k, (refl, refl)) s.fresh;
  }

  pass_one-Ensures :
      (kind : IceNodeData) (in_path in_parent : Bool) (snap : NodeSnapshot)
      (groups : List (Text × NodeData V)) (arrays : List NodeSnapshot)
      → keeps snap.path ≡ in_path
      → IsStarted keeps groups
      → Ensures
          (Passed arrays (array_if kind in_parent snap []))
          (pass_one upstream kind in_path in_parent snap (groups, arrays))
  unfolding pass_one
  pass_one-Ensures group false in_parent snap groups arrays k s = (s, sym (append-nil arrays))
  pass_one-Ensures group true in_parent snap groups arrays k s =
      parsed (parse_group_attrs upstream snap.user_data snap.path)
    where
      parsed :
          (r : Result (List (Text × Json)))
          → Ensures
              (Passed arrays [])
              (r >>= λ attrs. ok (insert snap.path (empty_node snap.path attrs) groups, arrays))
      parsed (ok attrs) = (IsStarted-insert snap.path attrs groups k s, sym (append-nil arrays))
      parsed (err e) = tt
  pass_one-Ensures array in_path false snap groups arrays k s = (s, sym (append-nil arrays))
  pass_one-Ensures array in_path true snap groups arrays k s = (s, refl)

  pub first_pass-Ensures :
      (snaps : List NodeSnapshot) (groups : List (Text × NodeData V)) (arrays : List NodeSnapshot)
      → IsStarted keeps groups
      → Ensures
          (Passed arrays (kept_arrays keeps snaps))
          (first_pass upstream keeps snaps (groups, arrays))
  unfolding first_pass
  first_pass-Ensures [] groups arrays s = (s, sym (append-nil arrays))
  first_pass-Ensures (snap ∷ snaps) groups arrays s =
      Ensures-bind (Passed arrays (array_if snap.node_data (keeps (parent_of snap.path)) snap []))
        (Passed arrays (kept_arrays keeps (snap ∷ snaps)))
        (pass_one upstream snap.node_data (keeps snap.path) (keeps (parent_of snap.path)) snap
          (groups, arrays))
        (first_pass upstream keeps snaps)
        (pass_one-Ensures snap.node_data (keeps snap.path) (keeps (parent_of snap.path)) snap groups
          arrays refl s)
        (λ next passed.
          subst
            (λ l.
              Ensures (λ (final : Pass V). IsStarted keeps final.0 × (final.1 ≡ l))
                (first_pass upstream keeps snaps next))
            (ap (λ l. l ++ kept_arrays keeps snaps) passed.1
              ∙ (append_assoc arrays _ (kept_arrays keeps snaps)
                  ∙ ap (λ l. arrays ++ l)
                      (array_if-append snap.node_data (keeps (parent_of snap.path)) snap
                        (kept_arrays keeps snaps))))
            (first_pass-Ensures snaps next.0 next.1 passed.0))
