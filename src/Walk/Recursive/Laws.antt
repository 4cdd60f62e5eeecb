-- ===== src/Walk/Recursive/Laws.antt =====
-- `walk_recursive` on a vanilla store.
use rustytree.Prelude.{
  ℕ, suc, ◌≤◌, ◌≡◌, refl, subst, sym, ap, ap₂, ◌∙◌, inl, inr, Bool, true, false, Option, some, List,
  [], ◌∷◌, map, Text, All, Occurs,
}
use mathlib.Core.Option
use rustytree.Error.{RustytreeError, Result, ok, err, ◌>>=◌, key_error, to_py_err}
use rustytree.Error
use rustytree.Glob.{GlobPredicate, names, parse}
use rustytree.Glob.Spec.{MatchesAll}
use rustytree.Zarrs.{Storage, ZarrsGroup, missing_metadata, not_opened}
use rustytree.Array.Dtype.{DtypeNames}
use rustytree.Node.{NodeData, VarMeta}
use rustytree.Walk.Join.{Race, try_join_all, try_join_all-map}
use rustytree.Walk.Open.{
  or_group_err, clone_attrs, open_array_meta, open_arrays, list_arrays, open_single,
  map_group_open_err,
}
use rustytree.Walk.Discover.{enters, child_paths, discover_paths, open_all, walk_via_zarrs}
use rustytree.Walk.Discover.Spec.{Tree, root, height, Holds, visited, IsNested, all_paths}
use rustytree.Walk.Discover.Laws.{discover_paths-visited}
use rustytree.Walk.Discover.Matches.{visited-matches}
use rustytree.Walk.Eager.Phase.{fill_node}
use rustytree.Walk.Recursive.{vanilla, done, then_eager, walk_source, walk_recursive}
use rustytree.Walk.Recursive.Limit.{
  IsAllowed, opened_semaphore, walk_recursive-IsAllowed, then_eager-ok,
}

-- The error of a joined future is that of one of them.
abbrev pub Picks : Race → Type 0
Picks race = (e : RustytreeError) (es : List RustytreeError) → Occurs (race e es) (e ∷ es)

lone_error : (race : Race) (e : RustytreeError) → Picks race → race e [] ≡ e
lone_error race e picks = elim (picks e []) [ inl f ↦ f | inr f ↦ absurd f ]

module _ {V : Type 0} (zarrs : DtypeNames) (race : Race) (store : Storage V) where
  -- The group at the path opens, with all arrays in it.
  abbrev pub Opens : Text → Type 0
  Opens path = (node : NodeData V) × (open_single zarrs race store path ≡ ok node)

  abbrev HasPath : Text → Result (NodeData V) → Type 0
  HasPath path (ok node) = node.path ≡ path
  HasPath path (err e) = Unit

  pub open_single-path :
      (path : Text) (node : NodeData V)
      → open_single zarrs race store path ≡ ok node
      → node.path ≡ path
  unfolding open_single
  open_single-path path node e = subst (HasPath path) e open_single-HasPath
    where
      open_arrays-HasPath :
          (group : ZarrsGroup) (r : Result (List (VarMeta V)))
          → HasPath path (
              r >>= λ vars.
              ok (record { path = path; attrs = clone_attrs group.attributes; vars = vars }))
      open_arrays-HasPath group (ok vars) = refl
      open_arrays-HasPath group (err e) = tt

      list_arrays-HasPath :
          (group : ZarrsGroup) (r : Result (List Text))
          → HasPath path (r >>= open_arrays zarrs race store path group)
      list_arrays-HasPath group (ok ps) =
          open_arrays-HasPath group (try_join_all race (map (open_array_meta zarrs race store) ps))
      list_arrays-HasPath group (err e) = tt

      by_group : (r : Result ZarrsGroup) → HasPath path (r >>= list_arrays zarrs race store path)
      by_group (ok group) = list_arrays-HasPath group _
      by_group (err e) = tt

      open_single-HasPath : HasPath path (open_single zarrs race store path)
      open_single-HasPath = by_group (or_group_err path [] (store.open_group path))

  -- Groups that all open.
  open_each :
      (paths : List Text)
      → All Opens paths
      → (nodes : List (NodeData V)) × ((map (open_single zarrs race store) paths ≡ map ok nodes)
          × (map (λ n. n.path) nodes ≡ paths))
  open_each [] h = ([], (refl, refl))
  open_each (p ∷ ps) ((node, e), h) =
      let (nodes, (f, g)) = open_each ps h in
      (node ∷ nodes, (ap₂ ◌∷◌ e f, ap₂ ◌∷◌ (open_single-path p node e) g))

  pub map_fill-path :
      (nodes : List (NodeData V))
      → map (λ n. n.path) (map (fill_node zarrs) nodes) ≡ map (λ n. n.path) nodes
  map_fill-path [] = refl
  map_fill-path (n ∷ ns) = ap (◌∷◌ n.path) (map_fill-path ns)

  -- The nodes of the walk, as `open_single` gives them and as Phase C fills them.
  pub walk_recursive-opened :
      (fuel : ℕ) (max_concurrency : Option ℕ) (glob : Option GlobPredicate) (t : Tree)
      → IsAllowed max_concurrency
      → Holds store t
      → height t ≤ fuel
      → All Opens (visited (enters glob) t)
      → (nodes : List (NodeData V)) × (walk_recursive zarrs race
            (vanilla store)
            fuel
            (root t)
            max_concurrency
            true
            glob
          ≡ done (ok (map (fill_node zarrs) nodes)))
        × (map (open_single zarrs race store) (visited (enters glob) t) ≡ map ok nodes)
        × (map (λ n. n.path) nodes ≡ visited (enters glob) t)
  unfolding walk_via_zarrs
  walk_recursive-opened fuel max_concurrency glob t allowed h le opens =
      let semaphore = opened_semaphore max_concurrency in
      let (nodes, (e, f)) = open_each (visited (enters glob) t) opens in
      (
        nodes,
        walk_recursive-IsAllowed zarrs race (vanilla store) fuel (root t) max_concurrency true glob
              allowed
            ∙ (ap
                  (λ r.
                    then_eager zarrs race semaphore
                      (Option.map (open_all race store semaphore zarrs) r))
                  (discover_paths-visited race store semaphore fuel glob t refl h le)
                ∙ (ap (λ rs. then_eager zarrs race semaphore (some (try_join_all race rs))) e
                    ∙ (ap (λ r. then_eager zarrs race semaphore (some r))
                          (try_join_all-map race nodes)
                        ∙ then_eager-ok zarrs race max_concurrency nodes))),
        e,
        f,
      )

  -- For a vanilla store that holds a finite tree of groups, fuel of at least its height, a limit on
  -- concurrency of at most `2 ^ 61 - 1` or none, and any scheduler, when every group that is visited opens with its arrays: the
  -- recursive walk from the root returns, without an error or a panic, one node for each visited
  -- group, in pre-order.
  pub walk_recursive-visited :
      (fuel : ℕ) (max_concurrency : Option ℕ) (glob : Option GlobPredicate) (t : Tree)
      → IsAllowed max_concurrency
      → Holds store t
      → height t ≤ fuel
      → All Opens (visited (enters glob) t)
      → (nodes : List (NodeData V)) × ((walk_recursive zarrs race
              (vanilla store)
              fuel
              (root t)
              max_concurrency
              true
              glob
            ≡ done (ok nodes))
          × (map (λ n. n.path) nodes ≡ visited (enters glob) t))
  walk_recursive-visited fuel max_concurrency glob t allowed h le opens =
      let (nodes, walked, _, paths) =
        walk_recursive-opened fuel max_concurrency glob t allowed h le opens in
      (map (fill_node zarrs) nodes, (walked, map_fill-path nodes ∙ paths))

  -- For a vanilla store that holds a finite tree of groups whose paths are those of children, a glob
  -- pattern, fuel of at least the height of the tree, a limit on concurrency of at most
  -- `2 ^ 61 - 1` or none, and any scheduler,
  -- when every group that is visited opens with its arrays: the recursive walk from the root
  -- returns nodes, and every group of the tree that the pattern matches segment by segment has one.
  pub walk_recursive-matches :
      (fuel : ℕ) (max_concurrency : Option ℕ) (pattern p : Text) (t : Tree)
      → IsAllowed max_concurrency
      → Holds store t
      → height t ≤ fuel
      → All Opens (visited (enters (some (parse pattern))) t)
      → IsNested t
      → Occurs p (all_paths t)
      → MatchesAll (names pattern) (names p)
      → (nodes : List (NodeData V)) × ((walk_recursive zarrs race
              (vanilla store)
              fuel
              (root t)
              max_concurrency
              true
              (some (parse pattern))
            ≡ done (ok nodes))
          × Occurs p (map (λ n. n.path) nodes))
  walk_recursive-matches fuel max_concurrency pattern p t allowed h le opens n o m =
      let (nodes, (e, f)) =
        walk_recursive-visited fuel max_concurrency (some (parse pattern)) t allowed h le opens in
      (nodes, (e, subst (Occurs p) (sym f) (visited-matches pattern p t n o m)))

  -- For a vanilla store in which the requested group has no metadata, with any glob predicate, in
  -- both modes, with a limit on concurrency of at most `2 ^ 61 - 1` or none, a scheduler that
  -- returns one of the errors of a failed join, and any fuel but none: the walk fails with an error that Python sees as `KeyError`.
  pub walk_recursive-missing :
      (fuel : ℕ) (max_concurrency : Option ℕ) (recursive : Bool) (glob : Option GlobPredicate)
      (root_path : Text)
      → Picks race
      → IsAllowed max_concurrency
      → store.open_group root_path ≡ not_opened missing_metadata
      → (e : RustytreeError) × ((walk_recursive zarrs race
              (vanilla store)
              (suc fuel)
              root_path
              max_concurrency
              recursive
              glob
            ≡ done (err e))
          × (Error.PyErr.exception (to_py_err e) ≡ key_error))
  unfolding walk_via_zarrs discover_paths child_paths open_single to_py_err map_group_open_err
      try_join_all
  walk_recursive-missing fuel max_concurrency recursive glob root_path picks allowed e = (
    map_group_open_err root_path [] missing_metadata,
    (
      walk_recursive-IsAllowed zarrs race (vanilla store) (suc fuel) root_path max_concurrency
            recursive glob allowed
          ∙ by_mode recursive,
      refl,
    ),
  )
    where
      by_mode :
          (recursive : Bool)
          → then_eager zarrs race (opened_semaphore max_concurrency) (
              walk_source zarrs race
                (vanilla store)
                (suc fuel)
                root_path
                (opened_semaphore max_concurrency)
                recursive
                glob)
            ≡ done (err (map_group_open_err root_path [] missing_metadata))
      by_mode true = rw e refl
      by_mode false =
          rw (e, lone_error race (map_group_open_err root_path [] missing_metadata) picks) refl
