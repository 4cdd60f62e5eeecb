-- ===== src/Python/Opened.antt =====
-- The variables that `open_single` of src/walk.rs gives convert.
use rustytree.Prelude.{◌≡◌, refl, List, [], ◌∷◌, map, Text, All}
use rustytree.Error
use rustytree.Error.{RustytreeError, Result, err}
use rustytree.Error.Ensures.{Ensures, Ensures-ok}
use rustytree.Zarrs.{Fallible, good, bad, map_err, ZarrsArray, ZarrsGroup, Storage}
use rustytree.Array.Dtype.{DtypeNames}
use rustytree.Node.{NodeData, VarMeta}
use rustytree.Walk.Join.{Race, failures, values, settled, try_join_all}
use rustytree.Walk.Open.{
  var_meta, clone_attrs, or_group_err, open_array_meta, open_arrays, list_arrays, open_single,
}
use rustytree.Walk.Eager.Phase.{fill_node}
use rustytree.Python.Object.{Platform}
use rustytree.Python.Values.{ReadsNumbers}
use rustytree.Python.Complete.{NodeLoads}
use rustytree.Python.Fetched.{Reshapes, IsComplete}
use rustytree.Python.Loads.{IsOpened, vars-Load}

-- A join of calls each of which ensures a property.
join-Ensures :
    {A : Type 0} (P : A → Type 0) (race : Race) (rs : List (Result A))
    → All (Ensures P) rs
    → Ensures (All P) (try_join_all race rs)
unfolding try_join_all
join-Ensures {A} P race rs h = settle (failures rs) (values rs) (values-All rs h)
  where
    values-All : (rs : List (Result A)) → All (Ensures P) rs → All P (values rs)
    values-All [] h = tt
    values-All (Error.ok a ∷ rs) (h, hs) = (h, values-All rs hs)
    values-All (err e ∷ rs) (h, hs) = values-All rs hs

    settle :
        (es : List RustytreeError) (vs : List A) → All P vs → Ensures (All P) (settled race es vs)
    settle [] vs h = h
    settle (e ∷ es) vs h = tt

module _ {V : Type 0} (zarrs : DtypeNames) (race : Race) (store : Storage V) where
  -- What zarrs documents of the arrays of a store.
  abbrev pub StoreIsComplete : Type 0
  StoreIsComplete =
      (path : Text) (array : ZarrsArray V) → store.open_array path ≡ good array → IsComplete array

  abbrev pub HasOpened : NodeData V → Type 0
  HasOpened node = All (IsOpened zarrs) node.vars

  arrays-IsOpened :
      StoreIsComplete
      → (paths : List Text)
      → All (Ensures (IsOpened zarrs)) (map (open_array_meta zarrs race store) paths)
  unfolding open_array_meta
  arrays-IsOpened c [] = tt
  arrays-IsOpened c (path ∷ paths) =
      (opened _ (store.open_array path) refl, arrays-IsOpened c paths)
    where
      opened :
          (f : Text → RustytreeError) (r : Fallible (ZarrsArray V))
          → store.open_array path ≡ r
          → Ensures
              (IsOpened zarrs)
              (Error.◌>>=◌ (map_err f r) (λ array. Error.ok (var_meta zarrs path array)))
      opened f (good array) e = (path, array, refl, c path array e)
      opened f (bad x) e = tt

  open_single-HasOpened :
      StoreIsComplete → (path : Text) → Ensures HasOpened (open_single zarrs race store path)
  unfolding open_single
  open_single-HasOpened c path = by_group (or_group_err path [] (store.open_group path))
    where
      joined :
          (group : ZarrsGroup) (r : Result (List (VarMeta V)))
          → Ensures (All (IsOpened zarrs)) r
          → Ensures HasOpened (
              Error.◌>>=◌ r (λ vars.
                Error.ok
                  (record { path = path; attrs = clone_attrs group.attributes; vars = vars })))
      joined group (Error.ok vars) h = h
      joined group (err e) h = tt

      listed :
          (group : ZarrsGroup) (r : Result (List Text))
          → Ensures HasOpened (Error.◌>>=◌ r (open_arrays zarrs race store path group))
      listed group (Error.ok paths) = joined group _ (
          join-Ensures (IsOpened zarrs) race (map (open_array_meta zarrs race store) paths)
            (arrays-IsOpened c paths))
      listed group (err e) = tt

      by_group :
          (r : Result ZarrsGroup)
          → Ensures HasOpened (Error.◌>>=◌ r (list_arrays zarrs race store path))
      by_group (Error.ok group) = listed group _
      by_group (err e) = tt

  -- Nodes that `open_single` gives.
  pub nodes-HasOpened :
      StoreIsComplete
      → (paths : List Text) (nodes : List (NodeData V))
      → map (open_single zarrs race store) paths ≡ map Error.ok nodes
      → All HasOpened nodes
  nodes-HasOpened c paths [] e = tt
  nodes-HasOpened c [] (node ∷ nodes) e = cc
  nodes-HasOpened c (path ∷ paths) (node ∷ nodes) e =
      let here : open_single zarrs race store path ≡ Error.ok node = cc in
      let there : map (open_single zarrs race store) paths ≡ map Error.ok nodes = cc in
      (
        Ensures-ok HasOpened (open_single zarrs race store path) node (open_single-HasOpened c path)
            here,
        nodes-HasOpened c paths nodes there,
      )

  pub nodes-Load :
      (platform : Platform V) (numbers : ReadsNumbers platform)
      → Reshapes platform
      → (nodes : List (NodeData V)) → All HasOpened nodes
      → All (NodeLoads platform numbers) (map (fill_node zarrs) nodes)
  nodes-Load platform numbers reshapes [] h = tt
  nodes-Load platform numbers reshapes (node ∷ nodes) (h, hs) = (
    vars-Load zarrs platform numbers reshapes node.vars h,
    nodes-Load platform numbers reshapes nodes hs,
  )
