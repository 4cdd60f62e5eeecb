-- ===== src/Python/Handles.antt =====
-- The array handles in what src/lib.rs returns, and how they pickle.
use rustytree.Prelude.{
  ℕ, inl, inr, Bool-cases, Option, none, some, List, [], ◌∷◌, Text, codes, text_eq,
}
use rustytree.Json.{
  Json, null, boolean, number, text, array, object, Number, Items, nil, cons, Fields, end, field,
}
use rustytree.Zarrs.{ZarrsArray}
use rustytree.Array.Read.{PyResult, ok, raise, panic, ◌>>=◌}
use rustytree.Node.{EagerElements, VarMeta, NodeData}
use rustytree.Store.{ReopenSpec}
use rustytree.Store.Handle.{ZarrsArrayHandle}
use rustytree.Python.Object.{
  ℤ, PyAny, str, list, dict, ndarray, handle, PyItems, no_items, item, PyFields, no_entries, entry,
  Platform, append, set_item,
}
use rustytree.Python.Convert.{
  number_to_py, number_arms, json_to_py, items_to_py, fields_to_py, attrs_into, attrs_to_pydict,
  eager_to_pyarray, py_texts, py_ints, var_entries, with_data, var_to_pydict, vars_into,
  node_to_pydict, nodes_into, nodes_to_pydict,
}

-- What holds of the value that a call of Python returns.
abbrev pub Returns {ℓ κ} : {A : Type ℓ} → (A → Type κ) → PyResult A → Type κ
Returns Q (ok a) = Q a
Returns Q (raise e) = Unit
Returns Q panic = Unit

pub Returns-bind {ℓ κ μ ν} :
    {A : Type ℓ} {B : Type κ} (Q : A → Type μ) (R : B → Type ν) (r : PyResult A)
    (f : A → PyResult B)
    → Returns Q r
    → ((a : A) → Q a → Returns R (f a))
    → Returns R (r >>= f)
Returns-bind Q R (ok a) f h k = k a h
Returns-bind Q R (raise e) f h k = tt
Returns-bind Q R panic f h k = tt

pub Returns-any {ℓ} : {A : Type ℓ} (r : PyResult A) → Returns (λ a. Unit {0}) r
Returns-any (ok a) = tt
Returns-any (raise e) = tt
Returns-any panic = tt

-- Every handle in an object, at any depth.
abbrev mutual
  pub AllHandles : {V : Type 0} → (ZarrsArrayHandle V → Type 0) → PyAny V → Type 0
  AllHandles P (handle h) = P h
  AllHandles P (list items) = AllItems P items
  AllHandles P (dict d) = AllEntries P d
  AllHandles P _ = Unit

  pub AllItems : {V : Type 0} → (ZarrsArrayHandle V → Type 0) → PyItems V → Type 0
  AllItems P no_items = Unit
  AllItems P (item p items) = AllHandles P p × AllItems P items

  pub AllEntries : {V : Type 0} → (ZarrsArrayHandle V → Type 0) → PyFields V → Type 0
  AllEntries P no_entries = Unit
  AllEntries P (entry k p d) = AllHandles P p × AllEntries P d

module _ {V : Type 0} (P : ZarrsArrayHandle V → Type 0) where
  AllItems-append :
      (l : PyItems V) (p : PyAny V) → AllItems P l → AllHandles P p → AllItems P (append l p)
  unfolding append
  AllItems-append no_items p h k = (k, tt)
  AllItems-append (item q l) p (h, hs) k = (h, AllItems-append l p hs k)

  AllEntries-set_item :
      (key : Text) (p : PyAny V) (d : PyFields V)
      → AllEntries P d
      → AllHandles P p
      → AllEntries P (set_item key p d)
  unfolding set_item
  AllEntries-set_item key p no_entries h k = (k, tt)
  AllEntries-set_item key p (entry j q d) (h, hs) k = elim (Bool-cases (text_eq j key)) [
    | inl t ↦ rw t (k, hs)
    | inr f ↦ rw f (h, AllEntries-set_item key p d hs k)
  ]

  texts-AllItems : (ts : List Text) → AllItems P (py_texts ts)
  texts-AllItems [] = tt
  texts-AllItems (t ∷ ts) = (tt, texts-AllItems ts)

  ints-AllItems : (ns : List ℕ) → AllItems P (py_ints ns)
  ints-AllItems [] = tt
  ints-AllItems (n ∷ ns) = (tt, ints-AllItems ns)

  module _ (platform : Platform V) where
    number-AllHandles :
        (n : Number) (i : Option ℤ) (u f : Option ℕ)
        → Returns (AllHandles P) (number_arms platform n i u f)
    number-AllHandles n (some i) u f = tt
    number-AllHandles n none (some u) f = tt
    number-AllHandles n none none (some f) = tt
    number-AllHandles n none none none = tt

    mutual
      unfolding json_to_py number_to_py

      json-AllHandles : (v : Json) → Returns (AllHandles P) (json_to_py platform v)
      json-AllHandles null = tt
      json-AllHandles (boolean b) = tt
      json-AllHandles (number n) = number-AllHandles n _ _ _
      json-AllHandles (text s) = tt
      json-AllHandles (array items) =
          Returns-bind (AllItems P) (AllHandles P) (items_to_py platform items no_items) _
            (items-AllItems items no_items tt) (λ l h. h)
      json-AllHandles (object map) =
          Returns-bind (AllEntries P) (AllHandles P) (fields_to_py platform map no_entries) _
            (fields-AllEntries map no_entries tt) (λ d h. h)

      items-AllItems :
          (items : Items) (l : PyItems V)
          → AllItems P l
          → Returns (AllItems P) (items_to_py platform items l)
      items-AllItems nil l h = h
      items-AllItems (cons v items) l h =
          Returns-bind (AllHandles P) (AllItems P) (json_to_py platform v) _ (json-AllHandles v)
            (λ p k. items-AllItems items (append l p) (AllItems-append l p h k))

      fields-AllEntries :
          (map : Fields) (d : PyFields V)
          → AllEntries P d
          → Returns (AllEntries P) (fields_to_py platform map d)
      fields-AllEntries end d h = h
      fields-AllEntries (field key v map) d h =
          Returns-bind (AllHandles P) (AllEntries P) (json_to_py platform v) _ (json-AllHandles v)
            (λ p k. fields-AllEntries map (set_item key p d) (AllEntries-set_item key p d h k))

    attrs_into-AllEntries :
        (attrs : List (Text × Json)) (d : PyFields V)
        → AllEntries P d
        → Returns (AllEntries P) (attrs_into platform attrs d)
    unfolding attrs_into
    attrs_into-AllEntries [] d h = h
    attrs_into-AllEntries ((key, v) ∷ attrs) d h =
        Returns-bind (AllHandles P) (AllEntries P) (json_to_py platform v) _ (json-AllHandles v)
          (λ p k. attrs_into-AllEntries attrs (set_item key p d) (AllEntries-set_item key p d h k))

    attrs-AllEntries :
        (attrs : List (Text × Json)) → Returns (AllEntries P) (attrs_to_pydict platform attrs)
    unfolding attrs_to_pydict
    attrs-AllEntries attrs = attrs_into-AllEntries attrs no_entries tt

    module _ (spec : Option ReopenSpec)
        (made : (array : ZarrsArray V) → P (record { array = array; spec = spec })) where
      var_entries-AllEntries :
          (var : VarMeta V) (attrs : PyFields V)
          → AllEntries P attrs
          → AllEntries P (var_entries spec var attrs)
      var_entries-AllEntries var attrs h =
          AllEntries-set_item (codes "handle") _ _
            (AllEntries-set_item (codes "attrs") (dict attrs) _
              (AllEntries-set_item (codes "shape") (list (py_ints var.shape)) _
                (AllEntries-set_item (codes "dtype") (str var.dtype) _
                  (AllEntries-set_item (codes "dims") (list (py_texts var.dims)) _
                    (AllEntries-set_item (codes "name") (str var.name) no_entries tt tt)
                    (texts-AllItems var.dims))
                  tt)
                (ints-AllItems var.shape))
              h)
            (made var.array)

      with_data-AllEntries :
          (eager : Option (EagerElements V)) (shape : List ℕ) (d : PyFields V)
          → AllEntries P d
          → Returns (AllEntries P) (with_data platform eager shape d)
      unfolding with_data
      with_data-AllEntries none shape d h = h
      with_data-AllEntries (some eager) shape d h =
          Returns-bind (λ a. Unit {0}) (AllEntries P) (eager_to_pyarray platform eager shape) _
            (Returns-any (eager_to_pyarray platform eager shape))
            (λ a _. AllEntries-set_item (codes "data") (ndarray a) d h tt)

      var-AllEntries : (var : VarMeta V) → Returns (AllEntries P) (var_to_pydict platform spec var)
      unfolding var_to_pydict
      var-AllEntries var =
          Returns-bind (AllEntries P) (AllEntries P) (attrs_to_pydict platform var.attrs) _
            (attrs-AllEntries var.attrs)
            (λ attrs h.
              with_data-AllEntries var.eager var.shape _ (var_entries-AllEntries var attrs h))

      vars-AllItems :
          (vars : List (VarMeta V)) (l : PyItems V)
          → AllItems P l
          → Returns (AllItems P) (vars_into platform spec vars l)
      unfolding vars_into
      vars-AllItems [] l h = h
      vars-AllItems (var ∷ vars) l h =
          Returns-bind (AllEntries P) (AllItems P) (var_to_pydict platform spec var) _
            (var-AllEntries var)
            (λ d k. vars-AllItems vars (append l (dict d)) (AllItems-append l (dict d) h k))

      node-AllEntries :
          (node : NodeData V) → Returns (AllEntries P) (node_to_pydict platform spec node)
      unfolding node_to_pydict
      node-AllEntries node =
          Returns-bind (AllEntries P) (AllEntries P) (attrs_to_pydict platform node.attrs) _
            (attrs-AllEntries node.attrs)
            (λ attrs h.
              Returns-bind (AllItems P) (AllEntries P) (vars_into platform spec node.vars no_items)
                _ (vars-AllItems node.vars no_items tt)
                (λ vars k.
                  AllEntries-set_item (codes "vars") (list vars) _
                    (AllEntries-set_item (codes "attrs") (dict attrs) _
                      (AllEntries-set_item (codes "path") (str node.path) no_entries tt tt) h)
                    k))

      nodes_into-AllEntries :
          (nodes : List (NodeData V)) (d : PyFields V)
          → AllEntries P d
          → Returns (AllEntries P) (nodes_into platform spec nodes d)
      unfolding nodes_into
      nodes_into-AllEntries [] d h = h
      nodes_into-AllEntries (node ∷ nodes) d h =
          Returns-bind (AllEntries P) (AllEntries P) (node_to_pydict platform spec node) _
            (node-AllEntries node)
            (λ p k.
              nodes_into-AllEntries nodes (set_item node.path (dict p) d)
                (AllEntries-set_item node.path (dict p) d h k))

      -- The handles that the conversion makes all have the specification.
      pub nodes-AllEntries :
          (nodes : List (NodeData V)) → Returns (AllEntries P) (nodes_to_pydict platform spec nodes)
      unfolding nodes_to_pydict
      nodes-AllEntries nodes = nodes_into-AllEntries nodes no_entries tt
