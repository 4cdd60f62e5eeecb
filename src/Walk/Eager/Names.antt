-- ===== src/Walk/Eager/Names.antt =====
-- The names of variables across the eager phase of src/walk.rs.
use rustytree.Prelude.{
  ◌≡◌, refl, ap₂, inl, inr, Bool-cases, Option, none, some, List, [], ◌∷◌, map, Text,
}
use rustytree.Array.Dtype.{DtypeNames}
use rustytree.Node.{EagerElements, VarMeta, NodeData}
use rustytree.Walk.Eager.{should_eager_fetch, fetched, fetch_all_elements}
use rustytree.Walk.Eager.Phase.{with_fetched, fill_var, fill_node}

-- The names of the variables of a node.
abbrev pub var_names : {V : Type 0} → NodeData V → List Text
var_names node = map (λ v. v.name) node.vars

module _ {V : Type 0} (zarrs : DtypeNames) where
  fill_var-name : (var : VarMeta V) → (fill_var zarrs var).name ≡ var.name
  fill_var-name var = elim (Bool-cases (should_eager_fetch var)) [
    | inl t ↦ rw t (by_fetched (fetched (fetch_all_elements zarrs var.array)))
    | inr f ↦ rw f refl
  ]
    where
      by_fetched : (o : Option (EagerElements V)) → (with_fetched zarrs var o).name ≡ var.name
      by_fetched none = refl
      by_fetched (some elements) = refl

  -- Phase C renames nothing.
  pub fill_node-var_names : (node : NodeData V) → var_names (fill_node zarrs node) ≡ var_names node
  fill_node-var_names node = filled node.vars
    where
      filled :
          (vars : List (VarMeta V))
          → map (λ v. v.name) (map (fill_var zarrs) vars) ≡ map (λ v. v.name) vars
      filled [] = refl
      filled (var ∷ vars) = ap₂ ◌∷◌ (fill_var-name var) (filled vars)
