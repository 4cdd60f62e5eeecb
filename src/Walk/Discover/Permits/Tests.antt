-- ===== src/Walk/Discover/Permits/Tests.antt =====
-- One permit and a group with two children.
use rustytree.Prelude.{◌*◌, ◌≤◌, ◌≡◌, ◌⊎◌, codes, arith}
use rustytree.Walk.Discover.Spec.{Tree, node, nil, cons}
use rustytree.Walk.Discover.Permits.{
  Call, waiting, holding, joining, finished, also, spawn, acquire, release, inside, first, Run,
  stay, move, run_length, size,
}
use rustytree.Walk.Discover.Permits.Progress.{Next, discover-completes}

abbrev two_children : Tree
two_children = node (codes "/") (cons (node (codes "/a") nil) (cons (node (codes "/b") nil) nil))

-- The permit of the root is dropped before the first child takes it.
abbrev child_holds : Call
child_holds =
    joining (also (holding (node (codes "/a") nil)) (spawn (cons (node (codes "/b") nil) nil)))

to_child : Run 1 (waiting two_children) 0 child_holds
to_child = move acquire (move release (move (inside (first acquire)) stay))

discover-completes_example :
    ((child_holds ≡ finished) ⊎ Next 0 child_holds)
    × (Run 0 child_holds 1 finished × (run_length to_child ≤ 3 * size two_children))
discover-completes_example = discover-completes 1 0 two_children child_holds to_child (omega arith)
