-- ===== src/Walk/Eager.antt =====
-- Phase C of src/walk.rs: the values of small variables are fetched during the walk.
mod Tests
pub mod Bounds
pub mod Phase
pub mod Names
use rustytree.Prelude.{
  ℕ, zero, suc, ◌+◌, Bool, true, false, ◌||◌, ◌&&◌, if◌then◌else◌, ltb, Option, none, some, List,
  [], ◌∷◌, ◌++◌, map, length, Text, codes, text_eq, decimal,
}
use mathlib.Core.Option
use rustytree.Error.{RustytreeError, other, Result, ok, err, ◌>>=◌}
use rustytree.Zarrs.{map_err, Ranges, ZarrsArray}
use rustytree.Array.Dtype.{
  Primitive, DtypeNames, is_string, for_each_supported_dtype, zarrs_dtype_zarr_name,
}
use rustytree.Array.Read.{mul64}
use rustytree.Node.{EagerElements, e_str, eager_from_vec, VarMeta, NodeData, with_vars}
use rustytree.Walk.Join.{Race, try_join_all}
use rustytree.Walk.Discover.{Semaphore, acquire}

abbrev pub eager_fetch_max_elements : ℕ
eager_fetch_max_elements = 1_048_576

abbrev pub eager_fetch_max_object_elements : ℕ
eager_fetch_max_object_elements = 4096

abbrev pub eager_fetch_max_object_bytes : ℕ
eager_fetch_max_object_bytes = 8_388_608

-- `shape.iter().product()` on `u64`, from the product of the extents before.
unfoldable pub product64 : ℕ → List ℕ → ℕ
product64 acc [] = acc
product64 acc (n ∷ ns) = product64 (mul64 acc n) ns

abbrev pub is_empty : List ℕ → Bool
is_empty [] = true
is_empty (_ ∷ _) = false

-- `dims.len() == 1 && dims[0] == name`
abbrev pub is_only : List Text → Text → Bool
is_only (d ∷ []) name = text_eq d name
is_only _ name = false

abbrev pub sum : List ℕ → ℕ
sum [] = 0
sum (n ∷ ns) = n + sum ns

-- `ArraySubset::new_with_shape`
abbrev pub whole : List ℕ → Ranges
whole shape = map (λ n. (0, n)) shape

abbrev pub fetch_err : Text → RustytreeError
fetch_err e = other (codes "eager fetch failed: " ++ e)

abbrev pub EagerTask : Type 0 → Type 0
EagerTask V = ℕ × (ℕ × ZarrsArray V)

abbrev pub Fetched : Type 0 → Type 0
Fetched V = ℕ × (ℕ × Option (EagerElements V))

module _ {V : Type 0} where
  abbrev pub is_self_named_1d : VarMeta V → Bool
  is_self_named_1d var = is_only var.dims var.name

  abbrev pub n_elements : VarMeta V → ℕ
  n_elements var = if is_empty var.shape then 1 else product64 1 var.shape

  unfoldable pub should_eager_fetch : VarMeta V → Bool
  should_eager_fetch var =
      if text_eq var.dtype (codes "object")
      then (if ltb eager_fetch_max_object_elements (n_elements var)
          then false
          else is_empty var.shape || is_self_named_1d var)
      else if ltb eager_fetch_max_elements (n_elements var)
      then false
      else is_self_named_1d var

  -- The byte cap on strings that were read; their bytes are resident, so the sum does not overflow.
  unfoldable pub capped_strings : List Text → Result (EagerElements V)
  capped_strings strings =
      let total_bytes = sum (map length strings) in
      if ltb eager_fetch_max_object_bytes total_bytes
      then err (
          other (
            codes "eager fetch: string payload "
            ++ (decimal total_bytes
                ++ (codes " bytes exceeds "
                    ++ (decimal eager_fetch_max_object_bytes ++ codes "-byte cap")))))
      else ok (e_str strings)

  -- The body of `for_each_supported_dtype!`, and its fallback.
  abbrev pub fetch_numeric : DtypeNames → ZarrsArray V → Option Primitive → Result (EagerElements V)
  fetch_numeric zarrs array (some t) = do
    elements ← map_err fetch_err (array.retrieve t (whole array.shape))
    ok (eager_from_vec t elements)
  fetch_numeric zarrs array none = err (
      other (
        codes "eager fetch: dtype "
        ++ (zarrs_dtype_zarr_name zarrs array.data_type ++ codes " not yet supported")))

  pub fetch_strings : ZarrsArray V → Result (EagerElements V)
  fetch_strings array = do
    strings ← map_err fetch_err (array.retrieve_strings (whole array.shape))
    capped_strings strings

  unfoldable pub fetch_all_elements : DtypeNames → ZarrsArray V → Result (EagerElements V)
  unfolding fetch_strings
  fetch_all_elements zarrs array =
      if is_string array.data_type
      then fetch_strings array
      else fetch_numeric zarrs array (for_each_supported_dtype array.data_type)

  -- The work list: the variables of one node, from its `vi`-th on, and the nodes from the `ni`-th on.
  unfoldable pub work_vars : ℕ → ℕ → List (VarMeta V) → List (EagerTask V)
  work_vars ni vi [] = []
  work_vars ni vi (var ∷ vars) =
      let rest = work_vars ni (suc vi) vars in
      if should_eager_fetch var then (ni, (vi, var.array)) ∷ rest else rest

  unfoldable pub work_nodes : ℕ → List (NodeData V) → List (EagerTask V)
  work_nodes ni [] = []
  work_nodes ni (node ∷ nodes) = work_vars ni 0 node.vars ++ work_nodes (suc ni) nodes

  -- `Ok(elements) => Some(elements)`, `Err(_) => None`
  abbrev pub fetched : Result (EagerElements V) → Option (EagerElements V)
  fetched (ok elements) = some elements
  fetched (err e) = none

  unfoldable pub run_task : DtypeNames → Semaphore → EagerTask V → Result (Fetched V)
  run_task zarrs semaphore (ni, (vi, array)) = do
    permit ← acquire semaphore (codes "eager phase: semaphore closed")
    ok (ni, (vi, fetched (fetch_all_elements zarrs array)))

  abbrev pub with_eager : EagerElements V → VarMeta V → VarMeta V
  with_eager elements var = record {
    name = var.name;
    dims = var.dims;
    dtype = var.dtype;
    shape = var.shape;
    attrs = var.attrs;
    array = var.array;
    eager = some elements;
  }

-- `xs[i] = f(xs[i])`; `none` is the panic of an index out of bounds.
unfoldable pub update {ℓ} : {A : Type ℓ} → ℕ → (A → Option A) → List A → Option (List A)
update i f [] = none
update zero f (x ∷ xs) = Option.map (λ y. y ∷ xs) (f x)
update (suc i) f (x ∷ xs) = Option.map (◌∷◌ x) (update i f xs)

module _ {V : Type 0} where
  -- `nodes[ni].vars[vi].eager = Some(eager)`
  unfoldable pub set_eager :
      ℕ → ℕ → EagerElements V → List (NodeData V) → Option (List (NodeData V))
  unfolding update
  set_eager ni vi elements nodes =
      update ni
        (λ node.
          Option.map (with_vars node) (update vi (λ var. some (with_eager elements var)) node.vars))
        nodes

  -- The loop over the results.
  unfoldable pub assign : List (Fetched V) → List (NodeData V) → Option (List (NodeData V))
  assign [] nodes = some nodes
  assign ((ni, (vi, none)) ∷ results) nodes = assign results nodes
  assign ((ni, (vi, some elements)) ∷ results) nodes =
      Option.bind (set_eager ni vi elements nodes) (assign results)

  -- `nodes` with the results of the tasks; `none` is a panic.
  abbrev pub assign_all :
      Result (List (Fetched V)) → List (NodeData V) → Option (Result (List (NodeData V)))
  assign_all (err e) nodes = some (err e)
  assign_all (ok results) nodes = Option.map ok (assign results nodes)

  -- The early return for no work gives the same result, since no task then fails.
  unfoldable pub eager_phase :
      DtypeNames → Race → Semaphore → List (NodeData V) → Option (Result (List (NodeData V)))
  eager_phase zarrs race semaphore nodes =
      let work = work_nodes 0 nodes in
      elim work [
        | [] ↦ some (ok nodes)
        | task ∷ tasks ↦
            assign_all (try_join_all race (map (run_task zarrs semaphore) (task ∷ tasks))) nodes
      ]
