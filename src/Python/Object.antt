-- ===== src/Python/Object.antt =====
-- The Python objects that src/lib.rs builds, and the calls of PyO3 and NumPy that build them.
use rustytree.Prelude.{ℕ, Bool, if◌then◌else◌, List, Text, text_eq}
use rustytree.Json.{Number}
use rustytree.Prelude.{Option}
use rustytree.Array.Read.{PyResult, PyArray}
use rustytree.Store.Handle.{ZarrsArrayHandle}

-- `negsuc n` is -(n + 1).
pub data ℤ : Type 0 where
  pos : ℕ → ℤ
  negsuc : ℕ → ℤ

-- A NumPy array of any shape, by its elements in row-major order.
pub record NdArray (V : Type 0) : Type 0 where
  pub flat : PyArray V
  pub shape : List ℕ

-- The keys of each dict are texts; a dict has its entries in the order of insertion.
mutual
  pub data PyAny (V : Type 0) : Type 0 where
    none_value : PyAny V
    bool_value : Bool → PyAny V
    int : ℤ → PyAny V
    -- The bits of an `f64`.
    float_value : ℕ → PyAny V
    str : Text → PyAny V
    list : PyItems V → PyAny V
    dict : PyFields V → PyAny V
    ndarray : NdArray V → PyAny V
    handle : ZarrsArrayHandle V → PyAny V

  pub data PyItems (V : Type 0) : Type 0 where
    no_items : PyItems V
    item : PyAny V → PyItems V → PyItems V

  pub data PyFields (V : Type 0) : Type 0 where
    no_entries : PyFields V
    entry : Text → PyAny V → PyFields V → PyFields V

-- What `serde_json::Number` answers, and the `reshape` of a 1-D array.
pub record Platform (V : Type 0) : Type 0 where
  pub as_i64 : Number → Option ℤ
  pub as_u64 : Number → Option ℕ
  pub as_f64 : Number → Option ℕ
  pub number_text : Number → Text
  pub reshape : PyArray V → List ℕ → PyResult (NdArray V)

module _ {V : Type 0} where
  -- `list.append(value)`
  unfoldable pub append : PyItems V → PyAny V → PyItems V
  append no_items value = item value no_items
  append (item p items) value = item p (append items value)

  -- `dict.set_item(key, value)`
  unfoldable pub set_item : Text → PyAny V → PyFields V → PyFields V
  set_item key value no_entries = entry key value no_entries
  set_item key value (entry k p entries) =
      if text_eq k key then entry k value entries else entry k p (set_item key value entries)
