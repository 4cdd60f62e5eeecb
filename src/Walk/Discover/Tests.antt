-- ===== src/Walk/Discover/Tests.antt =====
-- The groups of the sample store that are visited.
use rustytree.Prelude.{◌≡◌, refl, none, [], ◌∷◌, codes}
use rustytree.Walk.Discover.{enters}
use rustytree.Walk.Discover.Spec.{visited}
use rustytree.Walk.Sample.{sample_tree}

all_visited : visited (enters none) sample_tree ≡ codes "/" ∷ codes "/a" ∷ codes "/b" ∷ []
unfolding visited
all_visited = refl
