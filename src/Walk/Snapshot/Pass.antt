-- ===== src/Walk/Snapshot/Pass.antt =====
-- The loop over the snapshots.
use rustytree.Prelude.{
  ◌≡◌, refl, sym, ap, ◌∙◌, ◌↔◌, ◌⊎◌, inl, inr, Bool, true, false, List, [], ◌∷◌, ◌++◌, append-nil,
  append_assoc, Text, All, Occurs, Occurs-append_left, Occurs-append_right, Occurs-append_inv,
}
use rustytree.Error.{ok, ◌>>=◌}
use rustytree.BTree.{insert, keys}
use rustytree.BTree.Laws.{IsSorted, insert-IsSorted}
use rustytree.BTree.Keys.{Occurs-insert, All-insert}
use rustytree.Array.Dtype.{DtypeNames}
use rustytree.Node.{NodeData}
use rustytree.Walk.Paths.{parent_of}
use rustytree.Walk.Snapshot.{
  IceNodeData, group, array, NodeSnapshot, Upstream, Pass, empty_node, pass_one, first_pass,
}
use rustytree.Walk.Snapshot.Spec.{group_if, array_if, kept_groups, kept_arrays, Reads, ReadsAll}

-- A map of nodes in the order of their paths.
pub record IsNodeMap {V : Type 0} (groups : List (Text × NodeData V)) : Type 0 where
  pub sorted : IsSorted groups
  pub by_path : All (λ e. e.1.path ≡ e.0) groups

-- What a loop that starts with `groups₀` and `arrays₀` ends with, if it should add `paths` and `more`.
pub record Collected {V : Type 0} (groups₀ : List (Text × NodeData V)) (arrays₀ : List NodeSnapshot)
    (paths : List Text) (more : List NodeSnapshot) (state : Pass V) : Type 0 where
  pub node_map : IsNodeMap state.0
  pub groups_iff : (p : Text) → Occurs p (keys state.0) ↔ (Occurs p (keys groups₀) ⊎ Occurs p paths)
  pub arrays_eq : state.1 ≡ arrays₀ ++ more

-- Which paths occur after two additions.
two_additions : {a b c d e f : Type 0} → a ↔ (b ⊎ c) → d ↔ (a ⊎ e) → f ↔ (c ⊎ e) → d ↔ (b ⊎ f)
two_additions (to, from) (to', from') (split, join) = (
  λ x. elim (to' x) [
    | inl y ↦ elim (to y) [ inl z ↦ inl z | inr z ↦ inr (join (inl z)) ]
    | inr y ↦ inr (join (inr y))
  ],
  λ x. elim x [
    | inl y ↦ from' (inl (from (inl y)))
    | inr y ↦ elim (split y) [ inl z ↦ from' (inl (from (inr z))) | inr z ↦ from' (inr z) ]
  ],
)

Occurs-append_iff :
    (p : Text) (ps qs : List Text) → Occurs p (ps ++ qs) ↔ (Occurs p ps ⊎ Occurs p qs)
Occurs-append_iff p ps qs = (
  Occurs-append_inv p ps qs,
  λ o. elim o [ inl o ↦ Occurs-append_left p ps qs o | inr o ↦ Occurs-append_right p ps qs o ],
)

module _ {V : Type 0} (groups : List (Text × NodeData V)) (arrays : List NodeSnapshot) where
  Collected-none : IsNodeMap groups → Collected groups arrays [] [] (groups, arrays)
  Collected-none n = record {
    node_map = n;
    groups_iff = λ p. (λ o. inl o, λ o. elim o [ inl o ↦ o | inr f ↦ absurd f ]);
    arrays_eq = sym (append-nil arrays);
  }

  Collected-array :
      (snap : NodeSnapshot)
      → IsNodeMap groups
      → Collected groups arrays [] (snap ∷ []) (groups, arrays ++ snap ∷ [])
  Collected-array snap n = record {
    node_map = n;
    groups_iff = λ p. (λ o. inl o, λ o. elim o [ inl o ↦ o | inr f ↦ absurd f ]);
    arrays_eq = refl;
  }

  Collected-group :
      (path : Text) (node : NodeData V)
      → node.path ≡ path
      → IsNodeMap groups
      → Collected groups arrays (path ∷ []) [] (insert path node groups, arrays)
  Collected-group path node e n = record {
    node_map = record {
      sorted = insert-IsSorted path node groups n.sorted;
      by_path = All-insert (λ e. e.1.path ≡ e.0) path node groups e n.by_path;
    };
    groups_iff = λ p.
        let (to, from) = Occurs-insert p path node groups in
        (
          λ o. elim (to o) [ inl e ↦ inr (inl e) | inr o ↦ inl o ],
          λ o. from (elim o [ inl o ↦ inr o | inr (inl e) ↦ inl e | inr (inr f) ↦ absurd f ]),
        );
    arrays_eq = sym (append-nil arrays);
  }

  Collected-trans :
      (ps qs : List Text) (xs ys : List NodeSnapshot) (state final : Pass V)
      → Collected groups arrays ps xs state
      → Collected state.0 state.1 qs ys final
      → Collected groups arrays (ps ++ qs) (xs ++ ys) final
  Collected-trans ps qs xs ys state final c d = record {
    node_map = d.node_map;
    groups_iff = λ p. two_additions (c.groups_iff p) (d.groups_iff p) (Occurs-append_iff p ps qs);
    arrays_eq = d.arrays_eq ∙ (ap (λ a. a ++ ys) c.arrays_eq ∙ append_assoc arrays xs ys);
  }

group_if-append :
    (kind : IceNodeData) (keep : Bool) (path : Text) (rest : List Text)
    → group_if kind keep path [] ++ rest ≡ group_if kind keep path rest
group_if-append group true path rest = refl
group_if-append group false path rest = refl
group_if-append array keep path rest = refl

pub array_if-append :
    (kind : IceNodeData) (keep : Bool) (snap : NodeSnapshot) (rest : List NodeSnapshot)
    → array_if kind keep snap [] ++ rest ≡ array_if kind keep snap rest
array_if-append array true snap rest = refl
array_if-append array false snap rest = refl
array_if-append group keep snap rest = refl

module _ {V : Type 0} (upstream : Upstream V) (zarrs : DtypeNames) where
  -- One round.
  pass_one_lem :
      (kind : IceNodeData) (in_path in_parent : Bool) (snap : NodeSnapshot)
      (groups : List (Text × NodeData V)) (arrays : List NodeSnapshot)
      → Reads upstream zarrs kind snap
      → IsNodeMap groups
      → (state : Pass V) × ((pass_one upstream kind in_path in_parent snap (groups, arrays)
            ≡ ok state)
          × Collected groups arrays
              (group_if kind in_path snap.path [])
              (array_if kind in_parent snap [])
              state)
  unfolding pass_one
  pass_one_lem group false in_parent snap groups arrays r n =
      ((groups, arrays), (refl, Collected-none groups arrays n))
  pass_one_lem group true in_parent snap groups arrays (attrs, e) n = (
    (insert snap.path (empty_node snap.path attrs) groups, arrays),
    (rw e refl, Collected-group groups arrays snap.path (empty_node snap.path attrs) refl n),
  )
  pass_one_lem array in_path false snap groups arrays r n =
      ((groups, arrays), (refl, Collected-none groups arrays n))
  pass_one_lem array in_path true snap groups arrays r n =
      ((groups, arrays ++ snap ∷ []), (refl, Collected-array groups arrays snap n))

  -- The loop.
  pub first_pass_lem :
      (keeps : Text → Bool) (snaps : List NodeSnapshot) (state : Pass V)
      → ReadsAll upstream zarrs snaps
      → IsNodeMap state.0
      → (final : Pass V) × ((first_pass upstream keeps snaps state ≡ ok final)
          × Collected state.0 state.1 (kept_groups keeps snaps) (kept_arrays keeps snaps) final)
  unfolding first_pass
  first_pass_lem keeps [] (groups, arrays) r n =
      ((groups, arrays), (refl, Collected-none groups arrays n))
  first_pass_lem keeps (snap ∷ snaps) (groups, arrays) (here, there) n =
      let (next, (e, c)) =
        pass_one_lem snap.node_data (keeps snap.path) (keeps (parent_of snap.path)) snap groups
          arrays here n in
      let (final, (f, d)) = first_pass_lem keeps snaps next there c.node_map in
      (
        final,
        (
          ap (λ r. r >>= first_pass upstream keeps snaps) e ∙ f,
          rw
              (
                group_if-append snap.node_data (keeps snap.path) snap.path
                    (kept_groups keeps snaps),
                array_if-append snap.node_data (keeps (parent_of snap.path)) snap
                    (kept_arrays keeps snaps),
              )
              at (Collected-trans groups arrays _ _ _ _ next final c d),
        ),
      )
