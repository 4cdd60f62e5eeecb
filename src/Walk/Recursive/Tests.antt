-- ===== src/Walk/Recursive/Tests.antt =====
-- The walk of the sample store.
use rustytree.Prelude.{
  ℕ, ◌≡◌, refl, ◌≤◌, ◌<◌, ◌↔◌, inl, inr, true, none, some, List, map, codes, Occurs, arith,
}
use rustytree.Error.{ok}
use rustytree.Glob.{names, parse}
use rustytree.Glob.Predicate.{MatchesAll-self}
use rustytree.Node.{NodeData}
use rustytree.Walk.Discover.{enters}
use rustytree.Walk.Discover.Spec.{height, root, visited, all_paths}
use rustytree.Walk.Recursive.{vanilla, done, panic, walk_recursive}
use rustytree.Walk.Recursive.Limit.{walk_recursive_panics_iff}
use rustytree.Walk.Recursive.Laws.{walk_recursive-visited, walk_recursive-matches}
use rustytree.Walk.Recursive.Sample.{first, each_group-Opens}
use rustytree.Walk.Sample.{sample, sample-Holds, sample_tree, sample_tree-IsNested, int16_names}

sample-height : height sample_tree ≤ 2
unfolding height
sample-height = omega arith

a-Occurs : Occurs (codes "/a") (all_paths sample_tree)
unfolding visited
a-Occurs = inr (inl refl)

walk_recursive-visited_example :
    (nodes : List (NodeData ℕ)) × ((walk_recursive int16_names first
          (vanilla sample)
          2
          (root sample_tree)
          none
          true
          none
        ≡ done (ok nodes))
      × (map (λ n. n.path) nodes ≡ visited (enters none) sample_tree))
walk_recursive-visited_example =
    walk_recursive-visited int16_names first sample 2 none none sample_tree (omega arith)
      sample-Holds sample-height (each_group-Opens (enters none))

walk_recursive-matches_example :
    (nodes : List (NodeData ℕ)) × ((walk_recursive int16_names first
          (vanilla sample)
          2
          (root sample_tree)
          none
          true
          (some (parse (codes "/a")))
        ≡ done (ok nodes))
      × Occurs (codes "/a") (map (λ n. n.path) nodes))
walk_recursive-matches_example =
    walk_recursive-matches int16_names first sample 2 none (codes "/a") (codes "/a") sample_tree
      (omega arith) sample-Holds sample-height
      (each_group-Opens (enters (some (parse (codes "/a"))))) sample_tree-IsNested a-Occurs
      (MatchesAll-self (names (codes "/a")))

-- `max_concurrency = 2 ** 62`
walk_recursive_panics_iff_example :
    (walk_recursive int16_names first
        (vanilla sample)
        2
        (codes "/")
        (some 4_611_686_018_427_387_904)
        true
        none
      ≡ panic)
    ↔ ((n : ℕ) × (some 4_611_686_018_427_387_904 ≡ some n) × (2_305_843_009_213_693_951 < n))
walk_recursive_panics_iff_example =
    walk_recursive_panics_iff int16_names first (vanilla sample) 2 (codes "/")
      (some 4_611_686_018_427_387_904) true none
