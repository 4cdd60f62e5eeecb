-- ===== src/Python/Loads.antt =====
-- The variables of a walk of src/walk.rs convert, also those whose values were fetched.
use rustytree.Prelude.{◌≡◌, sym, subst, inl, inr, Bool-cases, List, [], ◌∷◌, map, Text, All}
use rustytree.Error
use rustytree.Error.{Result, err}
use rustytree.Zarrs.{ZarrsArray}
use rustytree.Array.Dtype.{DtypeNames}
use rustytree.Node.{EagerElements, VarMeta}
use rustytree.Walk.Open.{var_meta}
use rustytree.Walk.Eager.{should_eager_fetch, fetched, fetch_all_elements}
use rustytree.Walk.Eager.Phase.{with_fetched, fill_var}
use rustytree.Python.Object.{Platform}
use rustytree.Python.Convert.{flat_array, eager_to_pyarray}
use rustytree.Python.Values.{ReadsNumbers}
use rustytree.Python.Complete.{VarLoads}
use rustytree.Python.Fetched.{Reshapes, IsComplete, Fits, fetch-Fits}

-- A variable as an array gives it.
abbrev pub IsOpened : {V : Type 0} → DtypeNames → VarMeta V → Type 0
IsOpened {V} zarrs var =
    (path : Text) × (array : ZarrsArray V) × (var ≡ var_meta zarrs path array) × IsComplete array

module _ {V : Type 0} (zarrs : DtypeNames) (platform : Platform V) (numbers : ReadsNumbers platform)
    (reshapes : Reshapes platform) where
  filled-VarLoads :
      (path : Text) (array : ZarrsArray V) (r : Result (EagerElements V))
      → Fits zarrs array r
      → VarLoads platform numbers (with_fetched zarrs (var_meta zarrs path array) (fetched r))
  unfolding var_meta eager_to_pyarray
  filled-VarLoads path array (Error.ok e) h =
      (record { flat = flat_array e; shape = array.shape }, reshapes (flat_array e) array.shape h)
  filled-VarLoads path array (err x) h = tt

  array-VarLoads :
      (path : Text) (array : ZarrsArray V)
      → IsComplete array
      → VarLoads platform numbers (fill_var zarrs (var_meta zarrs path array))
  unfolding var_meta
  array-VarLoads path array c = elim (Bool-cases (should_eager_fetch (var_meta zarrs path array))) [
    | inl t ↦
        rw t
          (filled-VarLoads path array (fetch_all_elements zarrs array) (fetch-Fits zarrs array c))
    | inr f ↦ rw f tt
  ]

  pub vars-Load :
      (vars : List (VarMeta V))
      → All (IsOpened zarrs) vars
      → All (VarLoads platform numbers) (map (fill_var zarrs) vars)
  vars-Load [] h = tt
  vars-Load (var ∷ vars) ((path, array, e, c), h) = (
    subst (λ v. VarLoads platform numbers (fill_var zarrs v)) (sym e) (array-VarLoads path array c),
    vars-Load vars h,
  )
