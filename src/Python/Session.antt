-- ===== src/Python/Session.antt =====
-- `open_datatree` of src/lib.rs on the bytes of an icechunk session.
use rustytree.Prelude.{◌≡◌, refl, List, [], ◌∷◌, map, Text, All}
use rustytree.Error
use rustytree.Error.{Result, err}
use rustytree.Error.Ensures.{Ensures, Ensures-ok}
use rustytree.Zarrs.{Fallible, good, bad, map_err, ZarrsArray}
use rustytree.Array.Dtype.{DtypeNames}
use rustytree.Node.{VarMeta, NodeData}
use rustytree.Walk.Open.{var_meta}
use rustytree.Walk.Eager.Phase.{fill_node}
use rustytree.Walk.Snapshot.{NodeSnapshot, Upstream, build_var_meta_from_snapshot, collect_results}
use rustytree.Walk.Snapshot.Lookup.{build}
use rustytree.Walk.Snapshot.Placed.{HasItsArrays}
use rustytree.Python.Object.{Platform}
use rustytree.Python.Values.{ReadsNumbers}
use rustytree.Python.Complete.{NodeLoads}
use rustytree.Python.Loads.{IsOpened, vars-Load}
use rustytree.Python.Fetched.{Reshapes, IsComplete}

module _ {V : Type 0} (upstream : Upstream V) (zarrs : DtypeNames) where
  -- What zarrs documents of the arrays of a session.
  abbrev pub CompleteArrays : Type 0
  CompleteArrays =
      (path : Text) (metadata : upstream.ArrayMetadata) (array : ZarrsArray V)
      → upstream.new_with_metadata path metadata ≡ good array
      → IsComplete array

  build-IsOpened :
      (snap : NodeSnapshot) → CompleteArrays → Ensures (IsOpened zarrs) (build upstream zarrs snap)
  unfolding build_var_meta_from_snapshot
  build-IsOpened snap c = parsed _ _ (upstream.array_metadata snap.user_data)
    where
      opened :
          (metadata : upstream.ArrayMetadata) (f : Text → Error.RustytreeError)
          (r : Fallible (ZarrsArray V))
          → upstream.new_with_metadata snap.path metadata ≡ r
          → Ensures
              (IsOpened zarrs)
              (Error.◌>>=◌ (map_err f r) (λ array. Error.ok (var_meta zarrs snap.path array)))
      opened metadata f (good array) e = (snap.path, array, refl, c snap.path metadata array e)
      opened metadata f (bad x) e = tt

      parsed :
          (f g : Text → Error.RustytreeError) (r : Fallible upstream.ArrayMetadata)
          → Ensures (IsOpened zarrs) (
              Error.◌>>=◌ (map_err f r) (λ metadata.
                Error.◌>>=◌
                  (map_err g (upstream.new_with_metadata snap.path metadata))
                  (λ array. Error.ok (var_meta zarrs snap.path array))))
      parsed f g (good metadata) = opened metadata g _ refl
      parsed f g (bad x) = tt

  built-IsOpened :
      (snaps : List NodeSnapshot)
      → CompleteArrays
      → Ensures (All (IsOpened zarrs)) (collect_results (map (build upstream zarrs) snaps))
  built-IsOpened [] c = tt
  built-IsOpened (snap ∷ snaps) c =
      first (build upstream zarrs snap) (build-IsOpened snap c) (built-IsOpened snaps c)
    where
      rest :
          (var : VarMeta V) (rs : Result (List (VarMeta V)))
          → IsOpened zarrs var
          → Ensures (All (IsOpened zarrs)) rs
          → Ensures (All (IsOpened zarrs)) (Error.◌>>=◌ rs (λ vars. Error.ok (var ∷ vars)))
      rest var (Error.ok vars) h t = (h, t)
      rest var (err x) h t = tt

      first :
          (r : Result (VarMeta V))
          → Ensures (IsOpened zarrs) r
          → Ensures (All (IsOpened zarrs)) (collect_results (map (build upstream zarrs) snaps))
          → Ensures (All (IsOpened zarrs)) (collect_results (r ∷ map (build upstream zarrs) snaps))
      first (Error.ok var) h t = rest var _ h t
      first (err x) h t = tt

  -- The nodes of a walk convert once Phase C has filled them.
  pub nodes-Load :
      (platform : Platform V) (numbers : ReadsNumbers platform) (reshapes : Reshapes platform)
      (snaps : List NodeSnapshot) (nodes : List (NodeData V))
      → CompleteArrays
      → All (HasItsArrays upstream zarrs snaps) nodes
      → All (NodeLoads platform numbers) (map (fill_node zarrs) nodes)
  nodes-Load platform numbers reshapes snaps [] c h = tt
  nodes-Load platform numbers reshapes snaps (node ∷ nodes) c (h, hs) = (
    vars-Load zarrs platform numbers reshapes node.vars
        (Ensures-ok (All (IsOpened zarrs)) _ node.vars (built-IsOpened _ c) h),
    nodes-Load platform numbers reshapes snaps nodes c hs,
  )
