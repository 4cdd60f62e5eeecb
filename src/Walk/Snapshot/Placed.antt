-- ===== src/Walk/Snapshot/Placed.antt =====
-- Each array of a snapshot in the node of its parent.
use rustytree.Prelude.{
  ◌≡◌, refl, sym, subst, ap, ◌∙◌, Bool, true, Option, none, some, List, [], ◌∷◌, map, Text, Occurs,
  All, All-imp, All-Occurs, All-at,
}
use mathlib.Core.Option
use mathlib.Core.Option.{get_or}
use rustytree.Error.{Result, ok, err, ◌>>=◌}
use rustytree.Error.Ensures.{Ensures, Ensures-ok}
use rustytree.BTree.{get}
use rustytree.BTree.Laws.{IsSorted, IsSorted-keys}
use rustytree.BTree.Keys.{get-entry, All-get}
use rustytree.Array.Dtype.{DtypeNames}
use rustytree.Glob.{GlobPredicate}
use rustytree.Node.{NodeData, VarMeta, with_vars}
use rustytree.Walk.Paths.{normalize_path}
use rustytree.Walk.Snapshot.{
  NodeSnapshot, Upstream, Pass, first_pass, survives, list_snapshots, by_parent, group_job,
  collect_results, attach, into_values, walk_icechunk_session_snapshot,
}
use rustytree.Walk.Snapshot.Spec.{kept_arrays}
use rustytree.Walk.Snapshot.Pass.{IsNodeMap}
use rustytree.Walk.Snapshot.Started.{
  arrays_in, below-kept_arrays, IsStarted, Passed, first_pass-Ensures,
}
use rustytree.Walk.Snapshot.Lookup.{
  below, by_parent-get, by_parent-IsSorted, AreBuilt, AreBuilt-keys, Builds, jobs-Ensures, jobs-get,
}
use rustytree.Walk.Snapshot.Vars.{attached, Attached, attach-Ensures, attach-IsNodeMap}

started-IsNodeMap :
    {V : Type 0} (keeps : Text → Bool) (groups : List (Text × NodeData V))
    → IsStarted keeps groups
    → IsNodeMap groups
started-IsNodeMap keeps groups s = record {
  sorted = s.sorted;
  by_path =
      All-imp (λ e. (keeps e.0 ≡ true) × ((e.1.path ≡ e.0) × (e.1.vars ≡ []))) (λ e. e.1.path ≡ e.0)
        (λ e h. h.1.0) groups s.fresh;
}

into_values-All :
    {V : Type 0} (P : NodeData V → Type 0) (groups : List (Text × NodeData V))
    → All (λ e. P e.1) groups
    → All P (into_values groups)
into_values-All P [] h = tt
into_values-All P (e ∷ groups) (h, hs) = (h, into_values-All P groups hs)

-- The walk after the loop: the jobs of the parents, and their variables in the groups.
vars_of_job :
    {V : Type 0} (jobs_at : Option (List (VarMeta V))) (groups_at : Option (NodeData V))
    (node : NodeData V)
    → ((g : NodeData V) → groups_at ≡ some g → g.vars ≡ [])
    → some node ≡ Option.map (attached jobs_at) groups_at
    → node.vars ≡ get_or jobs_at []
vars_of_job jobs_at none node fresh e = cc
vars_of_job none (some g) node fresh e =
    let same : node ≡ g = cc in ap (λ n. n.vars) same ∙ fresh g refl
vars_of_job (some vars) (some g) node fresh e =
    let same : node ≡ with_vars g vars = cc in ap (λ n. n.vars) same

module _ {V : Type 0} (upstream : Upstream V) (zarrs : DtypeNames) (snaps : List NodeSnapshot) where
  -- A node's variables are what the arrays below its path build, in the order of the snapshot.
  abbrev pub HasItsArrays : NodeData V → Type 0
  HasItsArrays node = Builds upstream zarrs (below node.path (arrays_in snaps)) node.vars

  abbrev EntryHasItsArrays : Text × NodeData V → Type 0
  EntryHasItsArrays e = Builds upstream zarrs (below e.0 (arrays_in snaps)) e.1.vars

  module _ (keeps : Text → Bool) (groups : List (Text × NodeData V)) (s : IsStarted keeps groups)
      (jobs : List (Text × List (VarMeta V)))
      (b : AreBuilt upstream zarrs (by_parent (kept_arrays keeps snaps) []) jobs) where
    job-below :
        (path : Text)
        → keeps path ≡ true
        → Builds upstream zarrs (below path (arrays_in snaps)) (get_or (get path jobs) [])
    unfolding get
    job-below path k =
        subst (λ l. Builds upstream zarrs l (get_or (get path jobs) []))
          (by_parent-get path (kept_arrays keeps snaps) [] ∙ below-kept_arrays path keeps snaps k)
          (jobs-get upstream zarrs path (by_parent (kept_arrays keeps snaps) []) jobs b)

    fresh_at :
        (path : Text) (g : NodeData V)
        → get path groups ≡ some g
        → (keeps path ≡ true) × ((g.path ≡ path) × (g.vars ≡ []))
    fresh_at path g e =
        All-get (λ e. (keeps e.0 ≡ true) × ((e.1.path ≡ e.0) × (e.1.vars ≡ []))) path g groups
          s.fresh e

    kept_at :
        (path : Text) (node : NodeData V) (o : Option (NodeData V))
        → get path groups ≡ o
        → some node ≡ Option.map (attached (get path jobs)) o
        → keeps path ≡ true
    kept_at path node none e f = cc
    kept_at path node (some g) e f = (fresh_at path g e).0

    entry-HasItsArrays :
        (final : List (Text × NodeData V)) (path : Text) (node : NodeData V)
        → IsNodeMap final
        → Attached path jobs groups final
        → Occurs (path, node) final
        → EntryHasItsArrays (path, node)
    entry-HasItsArrays final path node n a o =
        let found = sym (get-entry path node final n.sorted o) ∙ a in
        let vars =
          vars_of_job (get path jobs) (get path groups) node (λ g e. (fresh_at path g e).1.1)
            found in
        subst (Builds upstream zarrs (below path (arrays_in snaps))) (sym vars)
          (job-below path (kept_at path node (get path groups) refl found))

    jobs-IsSorted : IsSorted jobs
    jobs-IsSorted =
        IsSorted-keys (by_parent (kept_arrays keeps snaps) []) jobs
          (sym (AreBuilt-keys upstream zarrs _ jobs b))
          (by_parent-IsSorted (kept_arrays keeps snaps) [] tt)

    finished-HasItsArrays :
        (r : Result (List (Text × NodeData V)))
        → attach jobs groups ≡ r
        → Ensures (All HasItsArrays) (r >>= λ final. ok (into_values final))
    finished-HasItsArrays (err e) f = tt
    finished-HasItsArrays (ok final) f =
        let n : IsNodeMap final =
          Ensures-ok IsNodeMap (attach jobs groups) final
            (attach-IsNodeMap jobs groups (started-IsNodeMap keeps groups s)) f in
        into_values-All HasItsArrays final (
          All-Occurs (λ e. HasItsArrays e.1) final
            (λ (path, node) o.
              subst (λ p. Builds upstream zarrs (below p (arrays_in snaps)) node.vars)
                (sym (All-at (λ e. e.1.path ≡ e.0) (path, node) final n.by_path o))
                (entry-HasItsArrays final path node n
                  (Ensures-ok (Attached path jobs groups) (attach jobs groups) final
                    (attach-Ensures path jobs groups jobs-IsSorted) f)
                  o)))

  -- For a session that lists `snaps`, whatever the mode and the glob predicate: if the walk returns
  -- nodes, the variables of each node are those that the arrays build whose parent path is the
  -- node's path, one for each array, in the order of the snapshot.
  pub snapshot-HasItsArrays :
      (root_path : Text) (recursive : Bool) (glob : Option GlobPredicate)
      (nodes : List (NodeData V))
      → list_snapshots upstream root_path ≡ ok snaps
      → walk_icechunk_session_snapshot upstream zarrs root_path recursive glob ≡ ok nodes
      → All HasItsArrays nodes
  unfolding walk_icechunk_session_snapshot
  snapshot-HasItsArrays root_path recursive glob nodes listed e =
      Ensures-ok (All HasItsArrays)
        (walk_icechunk_session_snapshot upstream zarrs root_path recursive glob) nodes
        (rw listed (passed (first_pass upstream keeps snaps ([], [])) at_end)) e
    where
      keeps : Text → Bool
      keeps = survives recursive (normalize_path root_path) glob

      at_end :
          Ensures
            (Passed upstream zarrs keeps [] (kept_arrays keeps snaps))
            (first_pass upstream keeps snaps ([], []))
      at_end =
          first_pass-Ensures upstream zarrs keeps snaps [] [] (record { sorted = tt; fresh = tt })

      built :
          (groups : List (Text × NodeData V))
          → IsStarted keeps groups
          → (r : Result (List (Text × List (VarMeta V))))
          → Ensures (AreBuilt upstream zarrs (by_parent (kept_arrays keeps snaps) [])) r
          → Ensures
              (All HasItsArrays)
              (r >>= λ jobs. attach jobs groups >>= λ final. ok (into_values final))
      built groups s (ok jobs) b =
          finished-HasItsArrays keeps groups s jobs b (attach jobs groups) refl
      built groups s (err e) b = tt

      passed :
          (r : Result (Pass V))
          → Ensures (Passed upstream zarrs keeps [] (kept_arrays keeps snaps)) r
          → Ensures (All HasItsArrays) (
              r >>= λ state.
              collect_results (map (group_job upstream zarrs) (by_parent state.1 [])) >>= λ jobs.
              attach jobs state.0 >>= λ final. ok (into_values final))
      passed (ok (groups, arrays)) (s, same) =
          built groups s (collect_results (map (group_job upstream zarrs) (by_parent arrays []))) (
            subst
              (λ l.
                Ensures (AreBuilt upstream zarrs (by_parent l []))
                  (collect_results (map (group_job upstream zarrs) (by_parent arrays []))))
              same (jobs-Ensures upstream zarrs (by_parent arrays [])))
      passed (err e) p = tt
