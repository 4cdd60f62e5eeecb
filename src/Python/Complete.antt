-- ===== src/Python/Complete.antt =====
-- When the conversions of src/lib.rs succeed, and under which keys the nodes then stand.
use rustytree.Prelude.{
  ◌≡◌, refl, ap, ◌∙◌, Option, none, some, List, [], ◌∷◌, map, ℕ, Text, codes, All,
}
use rustytree.Json.{
  Json, null, boolean, number, text, array, object, Items, nil, cons, Fields, end, field,
}
use rustytree.Array.Read.{PyResult, ok, ◌>>=◌}
use rustytree.Node.{EagerElements, VarMeta, NodeData}
use rustytree.Store.{ReopenSpec}
use rustytree.Python.Object.{
  none_value, bool_value, str, list, dict, ndarray, NdArray, PyItems, no_items, PyFields,
  no_entries, entry, Platform, append, set_item,
}
use rustytree.Python.Convert.{
  json_to_py, items_to_py, fields_to_py, attrs_into, attrs_to_pydict, eager_to_pyarray, with_data,
  var_to_pydict, vars_into, node_to_pydict,
}
use rustytree.Python.Values.{ReadsNumbers, number_to_py-read}

-- The keys of a dict, in order.
abbrev pub entry_keys : {V : Type 0} → PyFields V → List Text
entry_keys no_entries = []
entry_keys (entry k p d) = k ∷ entry_keys d

-- A call returns a value.
abbrev pub Gives : {A : Type 0} → PyResult A → Type 0
Gives {A} r = (a : A) × (r ≡ ok a)

Gives-bind :
    {A B : Type 0} (r : PyResult A) (f : A → PyResult B)
    → Gives r
    → ((a : A) → Gives (f a))
    → Gives (r >>= f)
Gives-bind r f (a, e) k = let (b, h) = k a in (b, ap (λ r. r >>= f) e ∙ h)

module _ {V : Type 0} (platform : Platform V) (numbers : ReadsNumbers platform) where
  mutual
    unfolding json_to_py

    json_Gives : (v : Json) → Gives (json_to_py platform v)
    json_Gives null = (none_value, refl)
    json_Gives (boolean b) = (bool_value b, refl)
    json_Gives (number n) = let (p, (e, _)) = number_to_py-read platform numbers n in (p, e)
    json_Gives (text s) = (str s, refl)
    json_Gives (array items) =
        let (l, e) = items_Gives items no_items in (list l, ap (λ r. r >>= λ l. ok (list l)) e)
    json_Gives (object map) =
        let (d, e) = fields_Gives map no_entries in (dict d, ap (λ r. r >>= λ d. ok (dict d)) e)

    items_Gives : (items : Items) (l : PyItems V) → Gives (items_to_py platform items l)
    items_Gives nil l = (l, refl)
    items_Gives (cons v items) l =
        let (p, e) = json_Gives v in
        let (out, h) = items_Gives items (append l p) in
        (out, ap (λ r. r >>= λ p. items_to_py platform items (append l p)) e ∙ h)

    fields_Gives : (map : Fields) (d : PyFields V) → Gives (fields_to_py platform map d)
    fields_Gives end d = (d, refl)
    fields_Gives (field k v map) d =
        let (p, e) = json_Gives v in
        let (out, h) = fields_Gives map (set_item k p d) in
        (out, ap (λ r. r >>= λ p. fields_to_py platform map (set_item k p d)) e ∙ h)

  attrs_into-Gives :
      (attrs : List (Text × Json)) (d : PyFields V) → Gives (attrs_into platform attrs d)
  unfolding attrs_into
  attrs_into-Gives [] d = (d, refl)
  attrs_into-Gives ((k, v) ∷ attrs) d =
      Gives-bind (json_to_py platform v) (λ p. attrs_into platform attrs (set_item k p d))
        (json_Gives v) (λ p. attrs_into-Gives attrs (set_item k p d))

  pub attrs-Gives : (attrs : List (Text × Json)) → Gives (attrs_to_pydict platform attrs)
  unfolding attrs_to_pydict
  attrs-Gives attrs = attrs_into-Gives attrs no_entries

  -- The fetched values of a variable, if there are any, take its shape.
  abbrev pub Loads : Option (EagerElements V) → List ℕ → Type 0
  Loads none shape = Unit
  Loads (some eager) shape = (a : NdArray V) × (eager_to_pyarray platform eager shape ≡ ok a)

  abbrev pub VarLoads : VarMeta V → Type 0
  VarLoads var = Loads var.eager var.shape

  abbrev pub NodeLoads : NodeData V → Type 0
  NodeLoads node = All VarLoads node.vars

  with_data-Gives :
      (eager : Option (EagerElements V)) (shape : List ℕ) (d : PyFields V)
      → Loads eager shape
      → Gives (with_data platform eager shape d)
  unfolding with_data
  with_data-Gives none shape d h = (d, refl)
  with_data-Gives (some eager) shape d (a, e) = (
    set_item (codes "data") (ndarray a) d,
    ap (λ r. r >>= λ arr. ok (set_item (codes "data") (ndarray arr) d)) e,
  )

  var_to_pydict-Gives :
      (spec : Option ReopenSpec) (var : VarMeta V)
      → VarLoads var
      → Gives (var_to_pydict platform spec var)
  unfolding var_to_pydict
  var_to_pydict-Gives spec var h =
      Gives-bind (attrs_to_pydict platform var.attrs) _ (attrs-Gives var.attrs)
        (λ attrs. with_data-Gives var.eager var.shape _ h)

  vars_into-Gives :
      (spec : Option ReopenSpec) (vars : List (VarMeta V)) (l : PyItems V)
      → All VarLoads vars
      → Gives (vars_into platform spec vars l)
  unfolding vars_into
  vars_into-Gives spec [] l h = (l, refl)
  vars_into-Gives spec (var ∷ vars) l (h, hs) =
      Gives-bind (var_to_pydict platform spec var)
        (λ d. vars_into platform spec vars (append l (dict d))) (var_to_pydict-Gives spec var h)
        (λ d. vars_into-Gives spec vars (append l (dict d)) hs)

  pub node_to_pydict-Gives :
      (spec : Option ReopenSpec) (node : NodeData V)
      → NodeLoads node
      → Gives (node_to_pydict platform spec node)
  unfolding node_to_pydict
  node_to_pydict-Gives spec node h =
      Gives-bind (attrs_to_pydict platform node.attrs) _ (attrs-Gives node.attrs) (λ attrs.
        Gives-bind (vars_into platform spec node.vars no_items) _
          (vars_into-Gives spec node.vars no_items h) (λ vars. (_, refl)))
