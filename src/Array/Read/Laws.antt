-- ===== src/Array/Read/Laws.antt =====
-- `read_subset` as a whole, against the values of the array that is read.
use rustytree.Prelude.{
  ℕ, ◌-◌, ◌≡◌, refl, ◌∙◌, sym, ap, inl, inr, Bool, true, false, Bool-cases, Option-cases, List, [],
  ◌∷◌, arith, some, none, map, length, ◌==◌, ==_iff, ◌||◌, Text,
}
use rustytree.Error.{PyErr}
use rustytree.Zarrs.{Fallible, good, Ranges, ZarrsArray}
use rustytree.Array.Dtype.{
  DataType, string, Primitive, DtypeNames, for_each_supported_dtype, is_string, utf32_capacity,
}
use rustytree.Array.Slice.{product}
use rustytree.Array.Slice.Indices.{row_major}
use rustytree.Array.Slice.Correct.{
  shift, slice_nd-row_major, slice_nd-empty, row_major-congr, row_major-empty,
}
use rustytree.Array.Read.{
  PyResult, ok, raise, panic, PyArray, numeric, objects, Aligned, check_ranges, any_empty,
  read_and_slice, read_numeric, read_objects, read_string_subset, read_axes, read_checked,
  read_subset, retrieve_text, read_supported, is_string_like, ◌>>=◌,
}
use rustytree.Array.Read.Checks.{
  check_ranges-InBounds, IsRangeError, check_ranges-CheckedRanges, FitsAxes-InBounds,
}
use rustytree.Array.Read.Align.{
  FitsAxes, CoversAll, align-CoversAll, InBounds, starts, extents, CoversAll-InBounds,
  CoversAll-Fits, CoversAll-extents, CoversAll-shift,
}

-- The row-major buffer of the part of an array that lies in the ranges.
abbrev pub slab {ℓ} : {A : Type ℓ} → (List ℕ → A) → Ranges → List A
slab value ranges = row_major (λ idx. value (shift (starts ranges) idx)) (extents ranges)

-- zarrs reads an array that holds `value`: any subset of it, as a row-major buffer.
abbrev pub HoldsValue {ℓ} :
    {A : Type ℓ} → (Ranges → Fallible (List A)) → (List ℕ → A) → List ℕ → Type ℓ
HoldsValue retrieve value shape =
    (ranges : Ranges) → InBounds ranges shape → retrieve ranges ≡ good (slab value ranges)

any_empty-product : (ranges : Ranges) → any_empty ranges ≡ true → product (extents ranges) ≡ 0
unfolding any_empty
any_empty-product [] h = cc
any_empty-product ((start, stop) ∷ ranges) h = elim (Bool-cases (start == stop)) [
  | inl e ↦
      let same : stop - start ≡ 0 = omega (arith, (==_iff start stop).0 e) in rw same (omega arith)
  | inr e ↦
      let rest : any_empty ranges ≡ true = rw e at h in
      rw (any_empty-product ranges rest) (omega arith)
]

module _ {ℓ} {A : Type ℓ} (retrieve : Ranges → Fallible (List A)) (value : List ℕ → A) where
  -- The aligned read and the slice together return the slab of the request.
  pub read_and_slice_lem :
      (shape : List ℕ) (ranges : Ranges) (axes : List Aligned)
      → HoldsValue retrieve value shape
      → CoversAll ranges shape axes
      → read_and_slice retrieve (any_empty ranges) axes ≡ ok (slab value ranges)
  unfolding read_and_slice
  read_and_slice_lem shape ranges axes holds c = elim (Bool-cases (any_empty ranges)) [
    | inl e ↦
        let nothing = any_empty-product ranges e in
        rw
          (
            e,
            (CoversAll-extents ranges shape axes c).0,
            slice_nd-empty (map (λ a. a.aligned_extent) axes) (map (λ a. a.offset) axes)
                (extents ranges) nothing,
          )
          (ap ok (
            sym (
              row_major-empty (λ idx. value (shift (starts ranges) idx)) (extents ranges) nothing)))
    | inr e ↦
        rw (e, holds (map (λ a. a.range) axes) (CoversAll-InBounds ranges shape axes c))
          (rw
            (
              (CoversAll-extents ranges shape axes c).1,
              slice_nd-row_major read (map (λ a. a.aligned_extent) axes) (map (λ a. a.offset) axes)
                  (map (λ a. a.extent) axes) (CoversAll-Fits ranges shape axes c),
              (CoversAll-extents ranges shape axes c).0,
            )
            (ap ok (
              row_major-congr _ (λ idx. value (shift (starts ranges) idx)) (extents ranges)
                (λ idx w. ap value (CoversAll-shift ranges shape axes idx c)))))
  ]
    where
      read : List ℕ → A
      read idx = value (shift (starts (map (λ a. a.range) axes)) idx)

module _ {V : Type 0} (zarrs : DtypeNames) (array : ZarrsArray V) where
  -- For an array of any data type and any ranges that are not in the bounds of its shape, or not
  -- one to an axis: `read_subset` raises an `IndexError` or a `ValueError`.
  pub read_subset-refuses :
      (ranges : Ranges)
      → ¬ InBounds ranges array.shape
      → (e : PyErr) × (read_subset array zarrs ranges ≡ raise e) × IsRangeError e
  unfolding read_subset
  read_subset-refuses ranges out = elim (Bool-cases (length ranges == length array.shape)) [
    | inr f ↦ rw f (_, refl, inl refl)
    | inl t ↦
        let rank = (==_iff (length ranges) (length array.shape)).0 t in
        let checked = check_ranges-CheckedRanges 0 ranges array.shape rank in
        elim (Option-cases (check_ranges 0 ranges array.shape)) [
          | inl e ↦ absurd (out (rw e at checked))
          | inr (e, found) ↦ rw (t, found) (e, refl, rw found at checked)
        ]
  ]

  -- Ranges in bounds reach the read with the axes aligned.
  read_subset-axes :
      (ranges : Ranges) (chunks : List ℕ)
      → array.chunk_shape ≡ good chunks
      → FitsAxes ranges chunks array.shape
      → (axes : List Aligned) × (read_subset array zarrs ranges
          ≡ read_axes array zarrs (any_empty ranges) axes)
        × CoversAll ranges array.shape axes
  unfolding read_subset read_checked
  read_subset-axes ranges chunks e f =
      let b = FitsAxes-InBounds ranges chunks array.shape f in
      let (rank, passed) = check_ranges-InBounds 0 ranges array.shape b in
      let (axes, aligned, c) = align-CoversAll ranges chunks array.shape f in
      (axes, rw ((==_iff _ _).1 rank, passed, e, aligned) refl, c)

abbrev string_test : DataType → Bool
string_test d = is_string d || elim (utf32_capacity d) [ some _ ↦ true | none ↦ false ]

numeric-not-string_like :
    (d : DataType) (t : Primitive) → for_each_supported_dtype d ≡ some t → string_test d ≡ false
unfolding for_each_supported_dtype
numeric-not-string_like DataType.bytes t e = cc
numeric-not-string_like string t e = cc
numeric-not-string_like (DataType.fixed_length_utf32 n) t e = cc
numeric-not-string_like (DataType.unsupported n) t e = cc
numeric-not-string_like _ t e = refl

objects_found :
    {V : Type 0} (r : PyResult (List Text)) (k : PyResult (PyArray V))
    → ((r >>= λ strings. ok (some (objects strings))) >>= λ result. elim result [
      | some a ↦ ok a
      | none ↦ k
    ])
      ≡ (r >>= λ strings. ok (objects strings))
objects_found (ok strings) k = refl
objects_found (raise e) k = refl
objects_found panic k = refl

module _ {V : Type 0} (zarrs : DtypeNames) (array : ZarrsArray V) where
  read_axes-numeric :
      (t : Primitive) (b : Bool) (axes : List Aligned)
      → for_each_supported_dtype array.data_type ≡ some t
      → read_axes array zarrs b axes ≡ read_numeric array t b axes
  unfolding read_axes read_string_subset read_supported
  read_axes-numeric t b axes e =
      rw (numeric-not-string_like array.data_type t e) (rw (e, read_supported) refl)

  read_axes-strings :
      (b : Bool) (axes : List Aligned)
      → is_string_like array ≡ true
      → read_axes array zarrs b axes
        ≡ (read_and_slice (retrieve_text array) b axes >>= λ strings. ok (objects strings))
  unfolding read_axes read_string_subset read_objects
  read_axes-strings b axes e = rw e (
      objects_found (read_and_slice (retrieve_text array) b axes)
        (read_supported array zarrs (for_each_supported_dtype array.data_type) b axes))

  -- For an array of a numeric type that holds `value`, with any chunk shape, and ranges in the
  -- bounds of its shape whose alignment does not overflow `u64`: `read_subset` returns the slab of
  -- the ranges, in row-major order and with elements of the type; it neither raises nor panics.
  pub read_subset-numeric :
      (t : Primitive) (value : List ℕ → V) (ranges : Ranges) (chunks : List ℕ)
      → for_each_supported_dtype array.data_type ≡ some t
      → HoldsValue (array.retrieve t) value array.shape
      → array.chunk_shape ≡ good chunks
      → FitsAxes ranges chunks array.shape
      → read_subset array zarrs ranges ≡ ok (numeric t (slab value ranges))
  unfolding read_numeric
  read_subset-numeric t value ranges chunks supported holds e f =
      let (axes, reached, c) = read_subset-axes zarrs array ranges chunks e f in
      reached
      ∙ (read_axes-numeric t (any_empty ranges) axes supported
          ∙ ap (λ r. r >>= λ elements. ok (numeric t elements))
              (read_and_slice_lem (array.retrieve t) value array.shape ranges axes holds c))

  -- For an array of a string-like type whose strings, with the rows of `char`s collected where it
  -- holds those, are `value`, with any chunk shape, and ranges in the bounds of its shape whose
  -- alignment does not overflow `u64`: `read_subset` returns the slab of the ranges as objects.
  pub read_subset-strings :
      (value : List ℕ → Text) (ranges : Ranges) (chunks : List ℕ)
      → is_string_like array ≡ true
      → HoldsValue (retrieve_text array) value array.shape
      → array.chunk_shape ≡ good chunks
      → FitsAxes ranges chunks array.shape
      → read_subset array zarrs ranges ≡ ok (objects (slab value ranges))
  read_subset-strings value ranges chunks like holds e f =
      let (axes, reached, c) = read_subset-axes zarrs array ranges chunks e f in
      reached
      ∙ (read_axes-strings (any_empty ranges) axes like
          ∙ ap (λ r. r >>= λ strings. ok (objects strings))
              (read_and_slice_lem (retrieve_text array) value array.shape ranges axes holds c))
