-- ===== src/Walk/Open/Names.antt =====
-- The names of the variables that `open_single` of src/walk.rs gives a group.
use rustytree.Prelude.{◌≡◌, refl, ap₂, ◌∙◌, List, [], ◌∷◌, map, Text, All}
use rustytree.Error.{RustytreeError, ok, ◌>>=◌}
use rustytree.Error.Ensures.{Ensures, Ensures-ok, Ensures-bind}
use rustytree.Zarrs.{
  Fallible, good, bad, map_err, ZarrsArray, ZarrsGroup, GroupOpened, opened, not_opened, Storage,
}
use rustytree.Array.Dtype.{DtypeNames}
use rustytree.Node.{NodeData, VarMeta}
use rustytree.Walk.Paths.{array_name}
use rustytree.Walk.Join.{Race, try_join_all, try_join_all-Ensures}
use rustytree.Walk.Open.{
  var_meta, clone_attrs, or_group_err, open_array_meta, open_arrays, list_arrays, open_single,
}
use rustytree.Walk.Eager.Names.{var_names, fill_node-var_names}
use rustytree.Walk.Eager.Phase.{fill_node}

abbrev names_listed : Fallible (List Text) → List Text
names_listed (good paths) = map array_name paths
names_listed (bad e) = []

abbrev names_opened : GroupOpened ZarrsGroup → List Text
names_opened (opened group) = names_listed group.child_array_paths
names_opened (not_opened e) = []

-- The names of the arrays that the store lists in the group.
abbrev pub names_in : {V : Type 0} → Storage V → Text → List Text
names_in store path = names_opened (store.open_group path)

module _ {V : Type 0} (zarrs : DtypeNames) (race : Race) (store : Storage V) where
  abbrev IsNamed : Text → VarMeta V → Type 0
  IsNamed path var = var.name ≡ array_name path

  open_array_meta-IsNamed :
      (path : Text) → Ensures (IsNamed path) (open_array_meta zarrs race store path)
  unfolding open_array_meta var_meta
  open_array_meta-IsNamed path = by_array _ (store.open_array path)
    where
      by_array :
          (f : Text → RustytreeError) (r : Fallible (ZarrsArray V))
          → Ensures (IsNamed path) (map_err f r >>= λ array. ok (var_meta zarrs path array))
      by_array f (good array) = refl
      by_array f (bad e) = tt

  opened-names :
      (paths : List Text) (vars : List (VarMeta V))
      → map (open_array_meta zarrs race store) paths ≡ map ok vars
      → map (λ v. v.name) vars ≡ map array_name paths
  opened-names [] [] e = refl
  opened-names [] (var ∷ vars) e = cc
  opened-names (path ∷ paths) [] e = cc
  opened-names (path ∷ paths) (var ∷ vars) e =
      let here : open_array_meta zarrs race store path ≡ ok var = cc in
      let there : map (open_array_meta zarrs race store) paths ≡ map ok vars = cc in
      ap₂ ◌∷◌
        (Ensures-ok (IsNamed path) (open_array_meta zarrs race store path) var
          (open_array_meta-IsNamed path) here)
        (opened-names paths vars there)

  abbrev HasNamesAt : Text → List Text → NodeData V → Type 0
  HasNamesAt path names node = (node.path ≡ path) × (var_names node ≡ names)

  open_single-HasNamesAt :
      (path : Text)
      → Ensures (HasNamesAt path (names_in store path)) (open_single zarrs race store path)
  unfolding open_single
  open_single-HasNamesAt path = by_group (store.open_group path)
    where
      arrays :
          (group : ZarrsGroup) (paths : List Text)
          → Ensures
              (HasNamesAt path (map array_name paths))
              (open_arrays zarrs race store path group paths)
      arrays group paths =
          Ensures-bind (λ vars. map (open_array_meta zarrs race store) paths ≡ map ok vars)
            (HasNamesAt path (map array_name paths))
            (try_join_all race (map (open_array_meta zarrs race store) paths))
            (λ vars. ok (record { path = path; attrs = clone_attrs group.attributes; vars = vars }))
            (try_join_all-Ensures race (map (open_array_meta zarrs race store) paths))
            (λ vars e. (refl, opened-names paths vars e))

      listed :
          (group : ZarrsGroup) (f : Text → RustytreeError) (r : Fallible (List Text))
          → Ensures
              (HasNamesAt path (names_listed r))
              (map_err f r >>= open_arrays zarrs race store path group)
      listed group f (good paths) = arrays group paths
      listed group f (bad e) = tt

      by_group :
          (r : GroupOpened ZarrsGroup)
          → Ensures
              (HasNamesAt path (names_opened r))
              (or_group_err path [] r >>= list_arrays zarrs race store path)
      by_group (opened group) = listed group _ group.child_array_paths
      by_group (not_opened e) = tt

  -- The filled nodes have variables by the names of the arrays that the store lists.
  pub filled-names_in :
      (paths : List Text) (nodes : List (NodeData V))
      → map (open_single zarrs race store) paths ≡ map ok nodes
      → All (λ node. var_names node ≡ names_in store node.path) (map (fill_node zarrs) nodes)
  filled-names_in paths [] e = tt
  filled-names_in [] (node ∷ nodes) e = cc
  filled-names_in (path ∷ paths) (node ∷ nodes) e =
      let here : open_single zarrs race store path ≡ ok node = cc in
      let there : map (open_single zarrs race store) paths ≡ map ok nodes = cc in
      let (placed, named) =
        Ensures-ok (HasNamesAt path (names_in store path)) (open_single zarrs race store path) node
          (open_single-HasNamesAt path) here in
      (rw placed (fill_node-var_names zarrs node ∙ named), filled-names_in paths nodes there)
