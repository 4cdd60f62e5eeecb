-- ===== src/Walk/Open.antt =====
-- Opening one group and its arrays: `map_group_open_err`, `open_single`, `open_array_meta` and
-- `clone_attrs` of src/walk.rs.
pub mod Names
use rustytree.Prelude.{ℕ, suc, Option, none, some, List, [], ◌∷◌, ◌++◌, map, Text, codes, decimal}
use rustytree.Error.{RustytreeError, not_found, other, Result, ok, err, ◌>>=◌}
use rustytree.BTree.{collect}
use rustytree.Json.{Json}
use rustytree.Zarrs.{
  map_err, ZarrsArray, GroupCreateError, missing_metadata, failure, GroupOpened, opened, not_opened,
  ZarrsGroup, Storage,
}
use rustytree.Array.Dtype.{DtypeNames, zarrs_dtype_to_numpy_str}
use rustytree.Node.{VarMeta, NodeData}
use rustytree.Walk.Join.{Race, try_join_all}
use rustytree.Walk.Paths.{array_name}

unfoldable pub map_group_open_err : Text → Text → GroupCreateError → RustytreeError
map_group_open_err path ctx missing_metadata =
    not_found (codes "group " ++ (path ++ codes " not found in store"))
map_group_open_err path ctx (failure e) =
    other (codes "failed to open group " ++ (path ++ (ctx ++ (codes ": " ++ e))))

-- `Group::async_open(…).map_err(…)?`
abbrev pub or_group_err : Text → Text → GroupOpened ZarrsGroup → Result ZarrsGroup
or_group_err path ctx (opened g) = ok g
or_group_err path ctx (not_opened e) = err (map_group_open_err path ctx e)

unfoldable pub clone_attrs : List (Text × Json) → List (Text × Json)
clone_attrs m = collect m

-- `format!("dim_{i}")`
abbrev pub dim_name : ℕ → Text
dim_name i = codes "dim_" ++ decimal i

-- `(0..n).map(…)`, from `i` on.
abbrev pub synthetic_dims : ℕ → List ℕ → List Text
synthetic_dims i [] = []
synthetic_dims i (_ ∷ shape) = dim_name i ∷ synthetic_dims (suc i) shape

-- `names.iter().enumerate().map(…)`, from `i` on.
abbrev pub named_dims : ℕ → List (Option Text) → List Text
named_dims i [] = []
named_dims i (none ∷ names) = dim_name i ∷ named_dims (suc i) names
named_dims i (some n ∷ names) = n ∷ named_dims (suc i) names

abbrev pub dims_of : Option (List (Option Text)) → List ℕ → List Text
dims_of none shape = synthetic_dims 0 shape
dims_of (some names) shape = named_dims 0 names

module _ {V : Type 0} (zarrs : DtypeNames) where
  -- The `VarMeta` of an array that is open at a path.
  unfoldable pub var_meta : Text → ZarrsArray V → VarMeta V
  var_meta array_path array = record {
    name = array_name array_path;
    dims = dims_of array.dimension_names array.shape;
    dtype = zarrs_dtype_to_numpy_str zarrs array.data_type;
    shape = array.shape;
    attrs = clone_attrs array.attributes;
    array = array;
    eager = none;
  }

  module _ (race : Race) (store : Storage V) where
    unfoldable pub open_array_meta : Text → Result (VarMeta V)
    open_array_meta array_path = do
      array ←
          map_err (λ e. other (codes "failed to open array " ++ (array_path ++ (codes ": " ++ e))))
            (store.open_array array_path)
      ok (var_meta array_path array)

    -- The rest of `open_single` once the group is open, and once its arrays are listed.
    abbrev pub open_arrays : Text → ZarrsGroup → List Text → Result (NodeData V)
    open_arrays path group array_paths = do
      vars ← try_join_all race (map open_array_meta array_paths)
      ok (record { path = path; attrs = clone_attrs group.attributes; vars = vars })

    abbrev pub list_arrays : Text → ZarrsGroup → Result (NodeData V)
    list_arrays path group = do
      array_paths ←
          map_err (λ e. other (codes "failed to list arrays in " ++ (path ++ (codes ": " ++ e))))
            group.child_array_paths
      open_arrays path group array_paths

    unfoldable pub open_single : Text → Result (NodeData V)
    open_single path = do
      group ← or_group_err path [] (store.open_group path)
      list_arrays path group
