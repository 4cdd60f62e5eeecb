-- ===== src/Walk/Sample.antt =====
-- A small store for the tests: a root with the groups `/a`, which holds the array `/a/x`, and `/b`.
use rustytree.Prelude.{
  ℕ, ◌≡◌, refl, inl, rsplit_once, if◌then◌else◌, false, none, some, List, [], ◌∷◌, Text, codes,
  text_eq, map,
}
use rustytree.Zarrs.{
  good, bad, ZarrsArray, missing_metadata, GroupOpened, opened, not_opened, ZarrsGroup, Storage,
}
use rustytree.Array.Dtype.{int16, DtypeNames}
use rustytree.Node.{VarMeta}
use rustytree.Walk.Discover.{Semaphore}
use rustytree.BTree.{collect}
use rustytree.Error.{ok}
use rustytree.Walk.Open.{var_meta}
use rustytree.Walk.Paths.{parent_of}
use rustytree.Walk.Snapshot.{
  group, array, NodeSnapshot, v3, Upstream, list_snapshots, parse_group_attrs,
  build_var_meta_from_snapshot,
}
use rustytree.Walk.Snapshot.Spec.{ReadsAll, HaveParents}
use rustytree.Walk.Discover.Spec.{Tree, node, nil, cons, Holds, IsNested}
use rustytree.Walk.Paths.Laws.{child_path}

abbrev pub int16_names : DtypeNames
int16_names = record { name_v3 = λ _. some (codes "int16"); display = λ _. codes "int16 / <i2" }

abbrev pub x_array : ZarrsArray ℕ
x_array = record {
  path = codes "/a/x";
  shape = 2 ∷ [];
  data_type = int16;
  dimension_names = some (some (codes "x") ∷ []);
  attributes = [];
  chunk_shape = good (2 ∷ []);
  retrieve = λ t ranges. good (7 ∷ 8 ∷ []);
  retrieve_strings = λ ranges. bad (codes "not strings");
  retrieve_chars = λ ranges. bad (codes "not chars");
}

abbrev pub leaf_group : List Text → ZarrsGroup
leaf_group arrays = record {
  attributes = [];
  child_array_paths = good arrays;
  child_group_paths = good [];
}

abbrev pub root_group : ZarrsGroup
root_group = record {
  attributes = [];
  child_array_paths = good [];
  child_group_paths = good (codes "/a" ∷ codes "/b" ∷ []);
}

open_sample : Text → GroupOpened ZarrsGroup
unfolding text_eq
open_sample path =
    if text_eq path (codes "/")
    then opened root_group
    else if text_eq path (codes "/a")
    then opened (leaf_group (codes "/a/x" ∷ []))
    else if text_eq path (codes "/b")
    then opened (leaf_group [])
    else not_opened missing_metadata

unfoldable pub sample : Storage ℕ
unfolding open_sample
sample = record { open_group = open_sample; open_array = λ path. good x_array }

abbrev pub sample_tree : Tree
sample_tree = node (codes "/") (cons (node (codes "/a") nil) (cons (node (codes "/b") nil) nil))

abbrev pub x_var : VarMeta ℕ
x_var = record {
  name = codes "x";
  dims = codes "x" ∷ [];
  dtype = codes "int16";
  shape = 2 ∷ [];
  attrs = [];
  array = x_array;
  eager = none;
}

abbrev pub one_permit : Semaphore
one_permit = record { permits = 1; closed = false }

pub sample-Holds : Holds sample sample_tree
unfolding Holds sample text_eq
sample-Holds = (
  (root_group, (refl, refl)),
  (((leaf_group (codes "/a/x" ∷ []), (refl, refl)), tt), (((leaf_group [], (refl, refl)), tt), tt)),
)

pub sample_tree-IsNested : IsNested sample_tree
unfolding IsNested child_path text_eq
sample_tree-IsNested = ((codes "a", refl), (tt, ((codes "b", refl), (tt, tt))))

-- A session with a root, a group and an array in it.
abbrev pub snaps : List NodeSnapshot
snaps =
    record { path = codes "/a/x"; node_data = array; user_data = 1 ∷ [] }
    ∷ record { path = codes "/a"; node_data = group; user_data = 1 ∷ [] }
    ∷ record { path = codes "/"; node_data = group; user_data = [] }
    ∷ []

abbrev pub session : Upstream ℕ
session = record {
  debug = λ t. t;
  ice_path = λ t. good t;
  list_nodes = λ parent. good (map good snaps);
  group_metadata = λ bytes. good (v3 []);
  ArrayMetadata = List ℕ;
  array_metadata = λ bytes. good bytes;
  new_with_metadata = λ path metadata. good x_array;
}

pub snaps_listed : list_snapshots session (codes "/") ≡ ok snaps
unfolding list_snapshots
snaps_listed = refl

pub snaps-ReadsAll : ReadsAll session int16_names snaps
unfolding build_var_meta_from_snapshot parse_group_attrs
snaps-ReadsAll =
    ((var_meta int16_names (codes "/a/x") x_array, refl), ((collect [], refl), (([], refl), tt)))

pub snaps-HaveParents : HaveParents snaps
unfolding parent_of rsplit_once
snaps-HaveParents = (inl refl, (tt, (tt, tt)))
