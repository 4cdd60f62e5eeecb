-- ===== src/Walk/Snapshot/Attach.antt =====
-- The jobs of the parent groups, and the loop that attaches their variables.
use rustytree.Prelude.{
  ◌≡◌, refl, sym, subst, ap, ◌∙◌, Option, none, some, List, [], ◌∷◌, ◌++◌, map, Text, All,
  All-append, Occurs,
}
use mathlib.Core.Option.{get_or}
use rustytree.Error.{ok, ◌>>=◌}
use rustytree.BTree.{insert, get, keys}
use rustytree.BTree.Laws.{insert-IsSorted}
use rustytree.BTree.Keys.{All-insert, All-get, get-Occurs, keys-insert}
use rustytree.Array.Dtype.{DtypeNames}
use rustytree.Node.{NodeData, VarMeta, with_vars}
use rustytree.Walk.Paths.{parent_of}
use rustytree.Walk.Snapshot.{
  array, NodeSnapshot, Upstream, build_var_meta_from_snapshot, collect_results, by_parent,
  group_job, attach_at, attach,
}
use rustytree.Walk.Snapshot.Spec.{Reads}
use rustytree.Walk.Snapshot.Pass.{IsNodeMap}

module _ {V : Type 0} (upstream : Upstream V) (zarrs : DtypeNames) (Good : Text → Type 0) where
  -- An array that builds, and whose parent is as it should be.
  abbrev pub GoodArray : NodeSnapshot → Type 0
  GoodArray snap = Good (parent_of snap.path) × Reads upstream zarrs array snap

  abbrev pub GoodEntry : Text × List NodeSnapshot → Type 0
  GoodEntry e = Good e.0 × All (Reads upstream zarrs array) e.1

  found_entries :
      (parent : Text) (m : List (Text × List NodeSnapshot)) (o : Option (List NodeSnapshot))
      → All GoodEntry m
      → get parent m ≡ o
      → All (Reads upstream zarrs array) (get_or o [])
  found_entries parent m none a e = tt
  found_entries parent m (some snaps) a e = (All-get GoodEntry parent snaps m a e).1

  by_parent_lem :
      (arrays : List NodeSnapshot) (m : List (Text × List NodeSnapshot))
      → All GoodArray arrays
      → All GoodEntry m
      → All GoodEntry (by_parent arrays m)
  unfolding by_parent
  by_parent_lem [] m h a = a
  by_parent_lem (snap ∷ arrays) m ((good, reads), h) a =
      let parent = parent_of snap.path in
      by_parent_lem arrays (insert parent (get_or (get parent m) [] ++ snap ∷ []) m) h (
        All-insert GoodEntry parent (get_or (get parent m) [] ++ snap ∷ []) m
          (
            good,
            All-append (Reads upstream zarrs array) _ _
                (found_entries parent m (get parent m) a refl) (reads, tt),
          )
          a)

  vars_lem :
      (snaps : List NodeSnapshot)
      → All (Reads upstream zarrs array) snaps
      → (vars : List (VarMeta V)) × (collect_results
            (map (λ snap. build_var_meta_from_snapshot upstream zarrs snap snap.path) snaps)
          ≡ ok vars)
  vars_lem [] h = ([], refl)
  vars_lem (snap ∷ snaps) ((var, e), h) =
      let (vars, f) = vars_lem snaps h in (var ∷ vars, rw (e, f) refl)

  jobs_lem :
      (entries : List (Text × List NodeSnapshot))
      → All GoodEntry entries
      → (jobs : List (Text × List (VarMeta V))) × ((collect_results
              (map (group_job upstream zarrs) entries)
            ≡ ok jobs)
          × All (λ j. Good j.0) jobs)
  unfolding group_job
  jobs_lem [] h = ([], (refl, tt))
  jobs_lem ((parent, snaps) ∷ entries) ((good, reads), h) =
      let (vars, e) = vars_lem snaps reads in
      let (jobs, (f, g)) = jobs_lem entries h in
      ((parent, vars) ∷ jobs, (rw (e, f) refl, (good, g)))

  -- All jobs succeed, and each is for a good parent.
  pub built_jobs :
      (arrays : List NodeSnapshot)
      → All GoodArray arrays
      → (jobs : List (Text × List (VarMeta V))) × ((collect_results
              (map (group_job upstream zarrs) (by_parent arrays []))
            ≡ ok jobs)
          × All (λ j. Good j.0) jobs)
  built_jobs arrays h = jobs_lem (by_parent arrays []) (by_parent_lem arrays [] h tt)

module _ {V : Type 0} where
  pub attach_one :
      (parent : Text) (vars : List (VarMeta V)) (groups : List (Text × NodeData V))
      → IsNodeMap groups
      → Occurs parent (keys groups)
      → (next : List (Text × NodeData V)) × ((attach_at (get parent groups) parent vars groups
            ≡ ok next)
          × (IsNodeMap next × (keys next ≡ keys groups)))
  attach_one parent vars groups n o =
      let (node, e) = get-Occurs parent groups o in
      let path = All-get (λ e. e.1.path ≡ e.0) parent node groups n.by_path e in
      (
        insert parent (with_vars node vars) groups,
        (
          rw e refl,
          (
            record {
              sorted = insert-IsSorted parent (with_vars node vars) groups n.sorted;
              by_path =
                  All-insert (λ e. e.1.path ≡ e.0) parent (with_vars node vars) groups path
                    n.by_path;
            },
            keys-insert parent (with_vars node vars) groups n.sorted o,
          ),
        ),
      )

  -- Attaching to groups that are there succeeds, and keeps the groups.
  pub attach_lem :
      (jobs : List (Text × List (VarMeta V))) (groups : List (Text × NodeData V))
      → IsNodeMap groups
      → All (λ j. Occurs j.0 (keys groups)) jobs
      → (final : List (Text × NodeData V)) × ((attach jobs groups ≡ ok final)
          × (IsNodeMap final × (keys final ≡ keys groups)))
  unfolding attach
  attach_lem [] groups n h = (groups, (refl, (n, refl)))
  attach_lem ((parent, vars) ∷ jobs) groups n (here, there) =
      let (next, (e, (n', k))) = attach_one parent vars groups n here in
      let (final, (f, (n'', k'))) =
        attach_lem jobs next n' (subst (λ ks. All (λ j. Occurs j.0 ks) jobs) (sym k) there) in
      (final, (ap (λ r. r >>= attach jobs) e ∙ f, (n'', k' ∙ k)))
