-- ===== src/Python/Convert.antt =====
-- The conversions of src/lib.rs: from attributes, variables and nodes to Python objects.
use rustytree.Prelude.{ℕ, Option, none, some, List, [], ◌∷◌, ◌++◌, Text, codes}
use rustytree.Error.{value_error}
use rustytree.Json.{
  Json, null, boolean, number, text, array, object, Number, Items, nil, cons, Fields, end, field,
}
use rustytree.Array.Dtype.{
  p_bool, p_i8, p_i16, p_i32, p_i64, p_u8, p_u16, p_u32, p_u64, p_f32, p_f64,
}
use rustytree.Array.Read.{PyResult, ok, raise, ◌>>=◌, PyArray, numeric, objects}
use rustytree.Node.{
  EagerElements, e_bool, e_i8, e_i16, e_i32, e_i64, e_u8, e_u16, e_u32, e_u64, e_f32, e_f64, e_str,
  VarMeta, NodeData,
}
use rustytree.Store.{ReopenSpec}
use rustytree.Python.Object.{
  ℤ, pos, NdArray, PyAny, none_value, bool_value, int, float_value, str, list, dict, ndarray,
  handle, PyItems, no_items, item, PyFields, no_entries, Platform, append, set_item,
}

module _ {V : Type 0} where
  -- The 1-D array of each variant.
  abbrev pub flat_array : EagerElements V → PyArray V
  flat_array (e_bool v) = numeric p_bool v
  flat_array (e_i8 v) = numeric p_i8 v
  flat_array (e_i16 v) = numeric p_i16 v
  flat_array (e_i32 v) = numeric p_i32 v
  flat_array (e_i64 v) = numeric p_i64 v
  flat_array (e_u8 v) = numeric p_u8 v
  flat_array (e_u16 v) = numeric p_u16 v
  flat_array (e_u32 v) = numeric p_u32 v
  flat_array (e_u64 v) = numeric p_u64 v
  flat_array (e_f32 v) = numeric p_f32 v
  flat_array (e_f64 v) = numeric p_f64 v
  flat_array (e_str v) = objects v

  -- A list of texts, and one of `u64`s, as `set_item` converts them.
  abbrev pub py_texts : List Text → PyItems V
  py_texts [] = no_items
  py_texts (t ∷ ts) = item (str t) (py_texts ts)

  abbrev pub py_ints : List ℕ → PyItems V
  py_ints [] = no_items
  py_ints (n ∷ ns) = item (int (pos n)) (py_ints ns)

  -- The entries of a variable that do not depend on its values.
  abbrev pub var_entries : Option ReopenSpec → VarMeta V → PyFields V → PyFields V
  var_entries spec var attrs =
      set_item (codes "handle") (handle (record { array = var.array; spec = spec })) (
        set_item (codes "attrs") (dict attrs) (
          set_item (codes "shape") (list (py_ints var.shape)) (
            set_item (codes "dtype") (str var.dtype) (
              set_item (codes "dims") (list (py_texts var.dims))
                (set_item (codes "name") (str var.name) no_entries)))))

module _ {V : Type 0} (platform : Platform V) where
  -- The chain of `as_i64`, `as_u64` and `as_f64`.
  abbrev pub number_arms : Number → Option ℤ → Option ℕ → Option ℕ → PyResult (PyAny V)
  number_arms n (some i) as_u64 as_f64 = ok (int i)
  number_arms n none (some u) as_f64 = ok (int (pos u))
  number_arms n none none (some f) = ok (float_value f)
  number_arms n none none none = raise (record {
    exception = value_error;
    message = codes "unrepresentable JSON number: " ++ platform.number_text n;
  })

  unfoldable pub number_to_py : Number → PyResult (PyAny V)
  number_to_py n = number_arms n (platform.as_i64 n) (platform.as_u64 n) (platform.as_f64 n)

  -- `json_to_py`, with its two loops from the list and the dict that are built so far.
  unfoldable mutual
    pub json_to_py : Json → PyResult (PyAny V)
    json_to_py null = ok none_value
    json_to_py (boolean b) = ok (bool_value b)
    json_to_py (number n) = number_to_py n
    json_to_py (text s) = ok (str s)
    json_to_py (array items) = items_to_py items no_items >>= λ l. ok (list l)
    json_to_py (object map) = fields_to_py map no_entries >>= λ d. ok (dict d)

    pub items_to_py : Items → PyItems V → PyResult (PyItems V)
    items_to_py nil l = ok l
    items_to_py (cons value items) l = json_to_py value >>= λ p. items_to_py items (append l p)

    pub fields_to_py : Fields → PyFields V → PyResult (PyFields V)
    fields_to_py end d = ok d
    fields_to_py (field k value map) d = json_to_py value >>= λ p. fields_to_py map (set_item k p d)

  -- `attrs_to_pydict`, from the dict that is built so far.
  unfoldable pub attrs_into : List (Text × Json) → PyFields V → PyResult (PyFields V)
  attrs_into [] d = ok d
  attrs_into ((k, v) ∷ attrs) d = json_to_py v >>= λ p. attrs_into attrs (set_item k p d)

  unfoldable pub attrs_to_pydict : List (Text × Json) → PyResult (PyFields V)
  attrs_to_pydict attrs = attrs_into attrs no_entries

  unfoldable pub eager_to_pyarray : EagerElements V → List ℕ → PyResult (NdArray V)
  eager_to_pyarray eager shape = platform.reshape (flat_array eager) shape

  -- The last entry of a variable, if its values were fetched.
  unfoldable pub with_data : Option (EagerElements V) → List ℕ → PyFields V → PyResult (PyFields V)
  with_data none shape d = ok d
  with_data (some eager) shape d = do
    arr ← eager_to_pyarray eager shape
    ok (set_item (codes "data") (ndarray arr) d)

  unfoldable pub var_to_pydict : Option ReopenSpec → VarMeta V → PyResult (PyFields V)
  var_to_pydict spec var = do
    attrs ← attrs_to_pydict var.attrs
    with_data var.eager var.shape (var_entries spec var attrs)

  -- The loop over the variables of a node.
  unfoldable pub vars_into : Option ReopenSpec → List (VarMeta V) → PyItems V → PyResult (PyItems V)
  vars_into spec [] l = ok l
  vars_into spec (var ∷ vars) l =
      var_to_pydict spec var >>= λ d. vars_into spec vars (append l (dict d))

  unfoldable pub node_to_pydict : Option ReopenSpec → NodeData V → PyResult (PyFields V)
  node_to_pydict spec node = do
    attrs ← attrs_to_pydict node.attrs
    vars ← vars_into spec node.vars no_items
    ok (
        set_item (codes "vars") (list vars) (
          set_item (codes "attrs") (dict attrs)
            (set_item (codes "path") (str node.path) no_entries)))

  -- `nodes_to_pydict`, from the dict that is built so far.
  unfoldable pub nodes_into :
      Option ReopenSpec → List (NodeData V) → PyFields V → PyResult (PyFields V)
  nodes_into spec [] d = ok d
  nodes_into spec (node ∷ nodes) d =
      node_to_pydict spec node >>= λ p. nodes_into spec nodes (set_item node.path (dict p) d)

  unfoldable pub nodes_to_pydict : Option ReopenSpec → List (NodeData V) → PyResult (PyFields V)
  nodes_to_pydict spec nodes = nodes_into spec nodes no_entries
