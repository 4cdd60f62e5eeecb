-- ===== src/Store/Getters.antt =====
-- The getters of `ZarrsArrayHandle` in src/array.rs, and its `__repr__`.
use rustytree.Prelude.{ℕ, List, [], ◌∷◌, ◌++◌, Text, codes, decimal}
use rustytree.Array.Dtype.{DtypeNames, zarrs_dtype_to_numpy_str, zarrs_dtype_read_numpy_str}
use rustytree.Array.Read.{PyResult}
use rustytree.Store.Handle.{ZarrsArrayHandle, value_err, or_raise}

-- `{:?}` of a slice of numbers, between its brackets.
abbrev debug_items : List ℕ → Text
debug_items [] = []
debug_items (n ∷ []) = decimal n
debug_items (n ∷ m ∷ ns) = decimal n ++ (codes ", " ++ debug_items (m ∷ ns))

module _ {V : Type 0} (self : ZarrsArrayHandle V) where
  unfoldable pub shape : List ℕ
  shape = self.array.shape

  -- The extents of a chunk shape are not 0, which `get` of a `NonZeroU64` gives as they are.
  unfoldable pub chunks : PyResult (List ℕ)
  chunks =
      or_raise (λ e. value_err (codes "zarrs: chunk_shape lookup failed: " ++ e))
        self.array.chunk_shape

  unfoldable pub dtype : DtypeNames → Text
  dtype zarrs = zarrs_dtype_to_numpy_str zarrs self.array.data_type

  unfoldable pub read_dtype : DtypeNames → Text
  read_dtype zarrs = zarrs_dtype_read_numpy_str zarrs self.array.data_type

  -- `__repr__`
  unfoldable pub repr : DtypeNames → Text
  repr zarrs =
      codes "ZarrsArrayHandle(shape=["
      ++ (debug_items self.array.shape
          ++ (codes "], dtype="
              ++ (zarrs_dtype_to_numpy_str zarrs self.array.data_type ++ codes ")")))
