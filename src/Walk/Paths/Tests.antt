-- ===== src/Walk/Paths/Tests.antt =====
-- The paths of the tests of src/walk.rs, and the laws on two of them.
use rustytree.Prelude.{◌≡◌, refl, [], ◌++◌, replicate, arith, codes, rsplit_once}
use rustytree.Walk.Paths.{slash, normalize_path, parent_of, array_name}
use rustytree.Walk.Paths.Laws.{child_path, parent_of-child_path, normalize_path-replicate}

root_normalized : normalize_path (codes "/") ≡ codes "/"
unfolding normalize_path
root_normalized = refl

two_slashes : normalize_path (codes "//") ≡ []
unfolding normalize_path
two_slashes = refl

parent_of_nested : parent_of (codes "/a/b/c") ≡ codes "/a/b"
unfolding parent_of rsplit_once
parent_of_nested = refl

parent_of-child_path_example :
    (parent_of (child_path (codes "/a") (codes "b")) ≡ codes "/a")
    × (array_name (child_path (codes "/a") (codes "b")) ≡ codes "b")
parent_of-child_path_example =
    parent_of-child_path (codes "/a") (codes "b") (λ e. cc) ((λ e. omega arith), tt)

normalize_path-replicate_example : normalize_path (codes "/a" ++ replicate 2 slash) ≡ codes "/a"
normalize_path-replicate_example =
    normalize_path-replicate (codes "/a") 2 (λ e. cc) (λ e. omega arith)
