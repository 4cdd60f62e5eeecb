-- ===== src/Python/Lazy.antt =====
-- The eager fetch of src/walk.rs against `read_subset` of src/array.rs, as Python gets them.
use rustytree.Prelude.{
  ℕ, ◌≡◌, ◌⊎◌, refl, sym, ap, ◌∙◌, inl, inr, Bool-cases, true, false, some, List, [], ◌∷◌, map,
  length, ltb, Text, arith,
}
use rustytree.Error
use rustytree.Error.{Result, err}
use rustytree.Zarrs.{good, ZarrsArray}
use rustytree.Array.Dtype.{
  DataType, string, is_string, Primitive, for_each_supported_dtype, DtypeNames,
}
use rustytree.Array.Read.{ok, objects, retrieve_text, is_string_like, read_subset}
use rustytree.Array.Read.Align.{FitsAxes, InBounds}
use rustytree.Array.Read.Laws.{HoldsValue, slab, read_subset-numeric, read_subset-strings}
use rustytree.Node.{EagerElements, eager_from_vec}
use rustytree.Walk.Eager.{
  eager_fetch_max_object_bytes, sum, whole, capped_strings, fetch_all_elements,
}
use rustytree.Python.Convert.{flat_array}
use rustytree.Python.Fetched.{flat_array-eager_from_vec}

-- The whole of an array is in its bounds.
whole-InBounds : (shape : List ℕ) → InBounds (whole shape) shape
whole-InBounds [] = tt
whole-InBounds (n ∷ shape) = (omega arith, omega arith, whole-InBounds shape)

module _ {V : Type 0} (zarrs : DtypeNames) (array : ZarrsArray V) where
  -- The elements of the array: numbers of a supported type, or strings.
  abbrev pub Contents : Type 0
  Contents =
      ((t : Primitive) × (value : List ℕ → V) × (for_each_supported_dtype array.data_type ≡ some t)
        × HoldsValue (array.retrieve t) value array.shape)
      ⊎ ((value : List ℕ → Text) × (is_string array.data_type ≡ true)
          × HoldsValue array.retrieve_strings value array.shape)

  numeric-is_not_string :
      (d : DataType) (t : Primitive) → for_each_supported_dtype d ≡ some t → is_string d ≡ false
  unfolding for_each_supported_dtype
  numeric-is_not_string string t e = cc
  numeric-is_not_string _ t e = refl

  -- What the eager fetch gives of numbers, and of strings within the byte cap.
  fetched_numbers :
      (t : Primitive) (v : List V)
      → for_each_supported_dtype array.data_type ≡ some t
      → array.retrieve t (whole array.shape) ≡ good v
      → fetch_all_elements zarrs array ≡ Error.ok (eager_from_vec t v)
  unfolding fetch_all_elements
  fetched_numbers t v e r = rw (numeric-is_not_string array.data_type t e, e, r) refl

  fetched_strings :
      (v : List Text) (elements : EagerElements V)
      → is_string array.data_type ≡ true
      → array.retrieve_strings (whole array.shape) ≡ good v
      → fetch_all_elements zarrs array ≡ Error.ok elements
      → flat_array elements ≡ objects v
  unfolding fetch_all_elements capped_strings
  fetched_strings v elements s r e =
      elim (Bool-cases (ltb eager_fetch_max_object_bytes (sum (map length v)))) [
        | inl t ↦ let f = rw (s, r, t) at e in cc
        | inr t ↦ let f = rw (s, r, t) at e in cc
      ]

  strings-HoldsValue :
      (value : List ℕ → Text)
      → is_string array.data_type ≡ true
      → HoldsValue array.retrieve_strings value array.shape
      → HoldsValue (retrieve_text array) value array.shape
  unfolding retrieve_text
  strings-HoldsValue value s holds ranges b = rw s (holds ranges b)

  string-is_string_like : is_string array.data_type ≡ true → is_string_like array ≡ true
  string-is_string_like s = rw s refl

  -- For an array that holds numbers of a supported type or strings, with any chunk shape, and whose
  -- axes align without overflow: if its values are fetched during the walk, then `read_subset` of
  -- all ranges of the array returns the very array that Python gets of the fetched values, with the
  -- same element type and the same elements in the same order.
  pub read_subset-fetch_all_elements :
      (chunks : List ℕ) (elements : EagerElements V)
      → Contents
      → array.chunk_shape ≡ good chunks
      → FitsAxes (whole array.shape) chunks array.shape
      → fetch_all_elements zarrs array ≡ Error.ok elements
      → read_subset array zarrs (whole array.shape) ≡ ok (flat_array elements)
  read_subset-fetch_all_elements chunks elements (inl (t, value, supported, holds)) c f e =
      let read = holds (whole array.shape) (whole-InBounds array.shape) in
      let same : eager_from_vec t (slab value (whole array.shape)) ≡ elements =
        ok-injective (sym (fetched_numbers t _ supported read) ∙ e) in
      read_subset-numeric zarrs array t value (whole array.shape) chunks supported holds c f
      ∙ ap ok (sym (flat_array-eager_from_vec t _) ∙ ap flat_array same)
    where
      ok-injective : {a b : EagerElements V} → Error.ok a ≡ Error.ok b → a ≡ b
      ok-injective h = cc
  read_subset-fetch_all_elements chunks elements (inr (value, s, holds)) c f e =
      let read = holds (whole array.shape) (whole-InBounds array.shape) in
      read_subset-strings zarrs array value (whole array.shape) chunks (string-is_string_like s)
        (strings-HoldsValue value s holds) c f
      ∙ ap ok (sym (fetched_strings _ elements s read e))
