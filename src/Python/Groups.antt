-- ===== src/Python/Groups.antt =====
-- The dicts of the groups that `nodes_to_pydict` of src/lib.rs returns, and their variables' names.
use rustytree.Prelude.{
  ◌≡◌, refl, sym, subst, ap, ◌∙◌, inl, inr, Bool-cases, Option, none, some, List, [], ◌∷◌, ◌++◌,
  append_assoc, append-nil, map, Text, codes, text_eq, text_eq_sound, All,
}
use rustytree.Array.Read.{ok}
use rustytree.Node.{EagerElements, VarMeta, NodeData}
use rustytree.Store.{ReopenSpec}
use rustytree.Python.Object.{
  PyAny, str, list, dict, PyItems, no_items, item, PyFields, no_entries, entry, Platform, append,
  set_item,
}
use rustytree.Python.Convert.{
  attrs_to_pydict, eager_to_pyarray, var_entries, with_data, var_to_pydict, vars_into,
  node_to_pydict, nodes_into, nodes_to_pydict,
}
use rustytree.Python.Fetched.{lookup}
use rustytree.Python.Handles.{Returns, Returns-bind, Returns-any}

-- The text that an entry holds.
abbrev text_of : {V : Type 0} → Option (PyAny V) → Option Text
text_of (some (str t)) = some t
text_of _ = none

abbrev name_of : {V : Type 0} → PyAny V → Option Text
name_of (dict d) = text_of (lookup (codes "name") d)
name_of _ = none

-- The entries `name` of the dicts in a list.
abbrev item_names : {V : Type 0} → PyItems V → List (Option Text)
item_names no_items = []
item_names (item p items) = name_of p ∷ item_names items

-- A dict of the group at the path, whose list `vars` has a dict for each of the names, in order.
abbrev pub IsGroup : {V : Type 0} → Text → List Text → PyAny V → Type 0
IsGroup {V} path names p =
    (d : PyFields V) × (vars : PyItems V) × (p ≡ dict d)
    × (lookup (codes "path") d ≡ some (str path))
    × (lookup (codes "vars") d ≡ some (list vars))
    × (item_names vars ≡ map some names)

-- What holds of each key with its value.
abbrev pub EachEntry : {V : Type 0} → (Text → PyAny V → Type 0) → PyFields V → Type 0
EachEntry P no_entries = Unit
EachEntry P (entry k p d) = P k p × EachEntry P d

module _ {V : Type 0} where
  item_names-append :
      (l : PyItems V) (p : PyAny V) → item_names (append l p) ≡ item_names l ++ name_of p ∷ []
  unfolding append
  item_names-append no_items p = refl
  item_names-append (item q l) p = ap (◌∷◌ (name_of q)) (item_names-append l p)

  EachEntry-set_item :
      (P : Text → PyAny V → Type 0) (key : Text) (p : PyAny V) (d : PyFields V)
      → EachEntry P d
      → P key p
      → EachEntry P (set_item key p d)
  unfolding set_item
  EachEntry-set_item P key p no_entries h k = (k, tt)
  EachEntry-set_item P key p (entry j q d) (h, hs) k = elim (Bool-cases (text_eq j key)) [
    | inl t ↦ rw t (subst (λ x. P x p) (sym (text_eq_sound j key t)) k, hs)
    | inr f ↦ rw f (h, EachEntry-set_item P key p d hs k)
  ]

  module _ (platform : Platform V) (spec : Option ReopenSpec) where
    -- A dict of the variable has its name.
    abbrev IsNamed : VarMeta V → PyFields V → Type 0
    IsNamed var d = name_of (dict d) ≡ some var.name

    with_data-IsNamed :
        (var : VarMeta V) (attrs : PyFields V) (eager : Option (EagerElements V))
        → Returns (IsNamed var) (with_data platform eager var.shape (var_entries spec var attrs))
    unfolding with_data lookup set_item text_eq
    with_data-IsNamed var attrs none = refl
    with_data-IsNamed var attrs (some eager) =
        Returns-bind (λ a. Unit {0}) (IsNamed var) (eager_to_pyarray platform eager var.shape) _
          (Returns-any (eager_to_pyarray platform eager var.shape)) (λ a _. refl)

    var-IsNamed : (var : VarMeta V) → Returns (IsNamed var) (var_to_pydict platform spec var)
    unfolding var_to_pydict
    var-IsNamed var =
        Returns-bind (λ a. Unit {0}) (IsNamed var) (attrs_to_pydict platform var.attrs) _
          (Returns-any (attrs_to_pydict platform var.attrs))
          (λ attrs _. with_data-IsNamed var attrs var.eager)

    abbrev Lists : List (Option Text) → PyItems V → Type 0
    Lists names l = item_names l ≡ names

    vars-Lists :
        (vars : List (VarMeta V)) (l : PyItems V)
        → Returns
            (Lists (item_names l ++ map some (map (λ v. v.name) vars)))
            (vars_into platform spec vars l)
    unfolding vars_into
    vars-Lists [] l = sym (append-nil (item_names l))
    vars-Lists (var ∷ vars) l =
        Returns-bind (IsNamed var) (Lists _) (var_to_pydict platform spec var)
          (λ d. vars_into platform spec vars (append l (dict d))) (var-IsNamed var)
          (λ d named.
            subst
              (λ names. Returns (Lists names) (vars_into platform spec vars (append l (dict d))))
              (ap (λ ns. ns ++ map some (map (λ v. v.name) vars))
                  (item_names-append l (dict d) ∙ ap (λ n. item_names l ++ n ∷ []) named)
                ∙ append_assoc (item_names l) (some var.name ∷ [])
                    (map some (map (λ v. v.name) vars)))
              (vars-Lists vars (append l (dict d))))

    -- A dict of the node, of which it has the path and the names of the variables.
    abbrev IsNode : NodeData V → PyFields V → Type 0
    IsNode node d = IsGroup node.path (map (λ v. v.name) node.vars) (dict d)

    node_to_pydict-IsNode :
        (node : NodeData V) → Returns (IsNode node) (node_to_pydict platform spec node)
    unfolding node_to_pydict lookup set_item text_eq
    node_to_pydict-IsNode node =
        Returns-bind (λ a. Unit {0}) (IsNode node) (attrs_to_pydict platform node.attrs) _
          (Returns-any (attrs_to_pydict platform node.attrs))
          (λ attrs _.
            Returns-bind (Lists (map some (map (λ v. v.name) node.vars))) (IsNode node)
              (vars_into platform spec node.vars no_items) _ (vars-Lists node.vars no_items)
              (λ vars h. (_, vars, refl, refl, refl, h)))

    module _ (names : Text → List Text) where
      -- A node with the variables of its path.
      abbrev pub HasNames : NodeData V → Type 0
      HasNames node = map (λ v. v.name) node.vars ≡ names node.path

      abbrev pub IsGroupOf : Text → PyAny V → Type 0
      IsGroupOf path p = IsGroup path (names path) p

      nodes_into-EachEntry :
          (nodes : List (NodeData V)) (d : PyFields V)
          → All HasNames nodes
          → EachEntry IsGroupOf d
          → Returns (EachEntry IsGroupOf) (nodes_into platform spec nodes d)
      unfolding nodes_into
      nodes_into-EachEntry [] d h e = e
      nodes_into-EachEntry (node ∷ nodes) d (h, hs) e =
          Returns-bind (IsNode node) (EachEntry IsGroupOf) (node_to_pydict platform spec node)
            (λ p. nodes_into platform spec nodes (set_item node.path (dict p) d))
            (node_to_pydict-IsNode node)
            (λ p g. nodes_into-EachEntry nodes (set_item node.path (dict p) d) hs (
              EachEntry-set_item IsGroupOf node.path (dict p) d e
                (subst (λ ns. IsGroup node.path ns (dict p)) h g)))

      pub nodes-EachEntry :
          (nodes : List (NodeData V)) (d : PyFields V)
          → All HasNames nodes
          → nodes_to_pydict platform spec nodes ≡ ok d
          → EachEntry IsGroupOf d
      unfolding nodes_to_pydict
      nodes-EachEntry nodes d h e =
          subst (Returns (EachEntry IsGroupOf)) e (nodes_into-EachEntry nodes no_entries h tt)
