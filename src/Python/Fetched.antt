-- ===== src/Python/Fetched.antt =====
-- Values that were fetched during the walk, as `eager_to_pyarray` of src/lib.rs hands them over.
use rustytree.Prelude.{
  ℕ, ◌≡◌, refl, inl, inr, Bool-cases, Option, none, some, if◌then◌else◌, List, map, length, Text,
  codes, text_eq, ltb,
}
use rustytree.Error
use rustytree.Error.{Result, err}
use rustytree.Zarrs.{Fallible, good, bad, map_err, ZarrsArray}
use rustytree.Array.Dtype.{
  is_string, Primitive, p_bool, p_i8, p_i16, p_i32, p_i64, p_u8, p_u16, p_u32, p_u64, p_f32, p_f64,
  for_each_supported_dtype, DtypeNames, zarrs_dtype_to_numpy_str,
}
use rustytree.Array.Dtype.Laws.{numpy_name}
use rustytree.Array.Slice.{product}
use rustytree.Array.Read.{ok, PyArray, numeric, objects}
use rustytree.Node.{EagerElements, eager_from_vec}
use rustytree.Store.Handle.{ZarrsArrayHandle}
use rustytree.Store.Getters
use rustytree.Walk.Eager.{
  eager_fetch_max_object_bytes, sum, whole, fetch_numeric, capped_strings, fetch_all_elements,
  fetch_err,
}
use rustytree.Python.Object.{
  NdArray, PyAny, str, list, ndarray, handle, PyFields, no_entries, entry, Platform,
}
use rustytree.Python.Convert.{flat_array, py_ints}

module _ {V : Type 0} where
  abbrev pub size : PyArray V → ℕ
  size (numeric t v) = length v
  size (objects v) = length v

  -- The name of a NumPy array's data type.
  abbrev pub dtype_name : PyArray V → Text
  dtype_name (numeric t v) = numpy_name t
  dtype_name (objects v) = codes "object"

  -- What NumPy documents of `reshape`: an array takes a shape of as many elements.
  abbrev pub Reshapes : Platform V → Type 0
  Reshapes platform =
      (flat : PyArray V) (shape : List ℕ)
      → size flat ≡ product shape
      → platform.reshape flat shape ≡ ok (record { flat = flat; shape = shape })

  -- What zarrs documents of a read: the whole array has as many elements as its shape.
  pub record IsComplete (array : ZarrsArray V) : Type 0 where
    pub of_numbers :
        (t : Primitive) (v : List V)
        → array.retrieve t (whole array.shape) ≡ good v
        → length v ≡ product array.shape
    pub of_strings :
        (v : List Text)
        → array.retrieve_strings (whole array.shape) ≡ good v
        → length v ≡ product array.shape

  pub flat_array-eager_from_vec :
      (t : Primitive) (v : List V) → flat_array (eager_from_vec t v) ≡ numeric t v
  unfolding eager_from_vec
  flat_array-eager_from_vec p_bool v = refl
  flat_array-eager_from_vec p_i8 v = refl
  flat_array-eager_from_vec p_i16 v = refl
  flat_array-eager_from_vec p_i32 v = refl
  flat_array-eager_from_vec p_i64 v = refl
  flat_array-eager_from_vec p_u8 v = refl
  flat_array-eager_from_vec p_u16 v = refl
  flat_array-eager_from_vec p_u32 v = refl
  flat_array-eager_from_vec p_u64 v = refl
  flat_array-eager_from_vec p_f32 v = refl
  flat_array-eager_from_vec p_f64 v = refl

module _ {V : Type 0} (zarrs : DtypeNames) (array : ZarrsArray V) where
  -- The array of the fetched values has the elements of the shape.
  abbrev pub Fits : Result (EagerElements V) → Type 0
  Fits (Error.ok e) = size (flat_array e) ≡ product array.shape
  Fits (err x) = Unit

  capped-Fits : (v : List Text) → length v ≡ product array.shape → Fits (capped_strings v)
  unfolding capped_strings
  capped-Fits v h = elim (Bool-cases (ltb eager_fetch_max_object_bytes (sum (map length v)))) [
    | inl t ↦ rw t tt
    | inr f ↦ rw f h
  ]

  strings-Fits :
      (r : Fallible (List Text))
      → ((v : List Text) → r ≡ good v → length v ≡ product array.shape)
      → Fits (Error.◌>>=◌ (map_err fetch_err r) (λ v. capped_strings v))
  strings-Fits (good v) h = capped-Fits v (h v refl)
  strings-Fits (bad e) h = tt

  numbers-Fits :
      (t : Primitive) (r : Fallible (List V))
      → ((v : List V) → r ≡ good v → length v ≡ product array.shape)
      → Fits (Error.◌>>=◌ (map_err fetch_err r) (λ v. Error.ok (eager_from_vec t v)))
  numbers-Fits t (good v) h = rw (flat_array-eager_from_vec t v) (h v refl)
  numbers-Fits t (bad e) h = tt

  fetch_numeric-Fits :
      (o : Option Primitive) → IsComplete array → Fits (fetch_numeric zarrs array o)
  fetch_numeric-Fits (some t) c =
      numbers-Fits t (array.retrieve t (whole array.shape)) (c.of_numbers t)
  fetch_numeric-Fits none c = tt

  pub fetch-Fits : IsComplete array → Fits (fetch_all_elements zarrs array)
  unfolding fetch_all_elements
  fetch-Fits c = elim (Bool-cases (is_string array.data_type)) [
    | inl t ↦ rw t (strings-Fits (array.retrieve_strings (whole array.shape)) c.of_strings)
    | inr f ↦ rw f (fetch_numeric-Fits (for_each_supported_dtype array.data_type) c)
  ]

  -- The data type that is declared is that of the fetched values.
  abbrev HasType : Result (EagerElements V) → Type 0
  HasType (Error.ok e) = dtype_name (flat_array e) ≡ zarrs_dtype_to_numpy_str zarrs array.data_type
  HasType (err x) = Unit

-- `dict[key]`, if it is there.
unfoldable pub lookup : {V : Type 0} → Text → PyFields V → Option (PyAny V)
lookup key no_entries = none
lookup key (entry k p d) = if text_eq k key then some p else lookup key d

-- A dict of a variable that holds the whole array as NumPy does, of the type and the shape that it
-- declares, with a handle of the same shape that names the same type.
abbrev pub HoldsArray : {V : Type 0} → DtypeNames → PyFields V → Type 0
HoldsArray {V} zarrs d =
    (a : NdArray V) × (h : ZarrsArrayHandle V) × (lookup (codes "data") d ≡ some (ndarray a))
    × (lookup (codes "dtype") d ≡ some (str (dtype_name a.flat)))
    × (lookup (codes "shape") d ≡ some (list (py_ints a.shape)))
    × (lookup (codes "handle") d ≡ some (handle h))
    × (Getters.dtype h zarrs ≡ dtype_name a.flat)
    × (Getters.shape h ≡ a.shape)
    × (size a.flat ≡ product a.shape)
