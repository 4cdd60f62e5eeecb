-- ===== src/Array/Read.antt =====
-- `ZarrsArrayHandle::read_subset` of src/array.rs: the checks of the requested ranges, their
-- alignment to chunks, the read, and the slice that cuts the request out again. Numbers are `u64`
-- with the wrap-around of a release build.
pub mod Align
pub mod Checks
pub mod Laws
pub mod Sample
mod Tests
use package.rustytree.Prelude.{
  ℕ, zero, suc, ◌+◌, ◌-◌, ◌*◌, ◌/◌, ◌%◌, min, max, Bool, true, false, not, ◌&&◌, ◌||◌,
  if◌then◌else◌, ltb, ◌==◌, Option, none, some, List, [], ◌∷◌, ◌++◌, map, length, Text, codes,
  decimal, from_chars,
}
use package.rustytree.Error.{PyErr, value_error, index_error, not_implemented_error}
use package.rustytree.Zarrs.{Fallible, good, bad, Ranges, ZarrsArray}
use package.rustytree.Array.Dtype.{
  DataType, Primitive, is_string, utf32_capacity, for_each_supported_dtype, DtypeNames,
  zarrs_dtype_zarr_name,
}
use package.rustytree.Array.Slice.{slice_nd}

-- A Python value, a raised exception, or a Rust panic.
pub data PyResult {ℓ} (A : Type ℓ) : Type ℓ where
  ok : A → PyResult A
  raise : PyErr → PyResult A
  panic : PyResult A

infixl 5 ◌>>=◌
abbrev pub ◌>>=◌ {ℓ κ} : {A : Type ℓ} {B : Type κ} → PyResult A → (A → PyResult B) → PyResult B
ok a >>= f = f a
raise e >>= f = raise e
panic >>= f = panic

-- A 1-D NumPy array: of a primitive element type, or of objects that are `str`.
pub data PyArray (V : Type 0) : Type 0 where
  numeric : Primitive → List V → PyArray V
  objects : List Text → PyArray V

abbrev pub u64 : ℕ
u64 = 18_446_744_073_709_551_616

abbrev pub add64 : ℕ → ℕ → ℕ
add64 a b = (a + b) % u64

abbrev pub mul64 : ℕ → ℕ → ℕ
mul64 a b = a * b % u64

abbrev pub sub64 : ℕ → ℕ → ℕ
sub64 a b = (a + u64 - b) % u64

-- `stop.div_ceil(cs)`
abbrev pub div_ceil : ℕ → ℕ → ℕ
div_ceil a b = if a % b == 0 then a / b else a / b + 1

value_err : Text → PyErr
value_err t = record { exception = value_error; message = t }

index_err : Text → PyErr
index_err t = record { exception = index_error; message = t }

-- The loop that checks each range against its axis; `none` lets the request through.
pub check_ranges : ℕ → Ranges → List ℕ → Option PyErr
unfolding value_err index_err
check_ranges i ((start, stop) ∷ ranges) (n ∷ shape) =
    let later = check_ranges (i + 1) ranges shape in
    if ltb stop start
    then some (
        value_err (
          codes "range["
          ++ (decimal i
              ++ (codes "]: start " ++ (decimal start ++ (codes " > stop " ++ decimal stop))))))
    else if ltb n stop
    then some (
        index_err (
          codes "range["
          ++ (decimal i
              ++ (codes "] stop " ++ (decimal stop ++ (codes " exceeds dim size " ++ decimal n))))))
    else later
check_ranges i _ _ = none

-- `ranges.iter().any(|(start, stop)| start == stop)`
pub any_empty : Ranges → Bool
any_empty [] = false
any_empty ((start, stop) ∷ ranges) = start == stop || any_empty ranges

-- One round of the alignment loop.
pub record Aligned : Type 0 where
  pub range : ℕ × ℕ
  pub offset : ℕ
  pub extent : ℕ
  pub aligned_extent : ℕ

pub align_axis : ℕ → ℕ → ℕ → ℕ → Aligned
align_axis start stop chunk n =
    let cs = max chunk 1 in
    let aligned_start = mul64 (start / cs) cs in
    let aligned_stop_unbounded = mul64 (div_ceil stop cs) cs in
    let aligned_stop = min aligned_stop_unbounded n in
    record {
      range = (aligned_start, aligned_stop);
      offset = sub64 start aligned_start;
      extent = sub64 stop start;
      aligned_extent = sub64 aligned_stop aligned_start;
    }

-- The alignment loop; `chunk_shape[i]` out of bounds is a panic, `none`.
pub align : Ranges → List ℕ → List ℕ → Option (List Aligned)
unfolding align_axis
align [] _ _ = some []
align ((start, stop) ∷ ranges) (chunk ∷ chunk_shape) (n ∷ shape) =
    elim (align ranges chunk_shape shape) [
      | none ↦ none
      | some rest ↦ some (align_axis start stop chunk n ∷ rest)
    ]
align (_ ∷ _) _ _ = none

read_err : Text → PyErr
unfolding value_err
read_err e = value_err (codes "zarrs read failed: " ++ e)

-- `.map_err(|err| …)?`, and an operation that panics where it has no value.
abbrev or_raise {ℓ} : {A : Type ℓ} → (Text → PyErr) → Fallible A → PyResult A
or_raise f (good a) = ok a
or_raise f (bad e) = raise (f e)

abbrev or_panic {ℓ} : {A : Type ℓ} → Option A → PyResult A
or_panic (some a) = ok a
or_panic none = panic

-- The aligned read, skipped for an empty request, and the slice.
pub read_and_slice {ℓ} :
    {A : Type ℓ} → (Ranges → Fallible (List A)) → Bool → List Aligned → PyResult (List A)
unfolding read_err
read_and_slice retrieve is_empty axes = do
  elements ← if is_empty then ok [] else or_raise read_err (retrieve (map (λ a. a.range) axes))
  or_panic (
      slice_nd elements (map (λ a. a.aligned_extent) axes) (map (λ a. a.offset) axes)
        (map (λ a. a.extent) axes))

module _ {V : Type 0} (array : ZarrsArray V) where
  -- The strings of a subset: read as strings, or as rows of `char`s that are collected.
  unfoldable pub retrieve_text : Ranges → Fallible (List Text)
  unfolding from_chars
  retrieve_text subset =
      if is_string array.data_type
      then array.retrieve_strings subset
      else elim (array.retrieve_chars subset) [
        | good rows ↦ good (map from_chars rows)
        | bad e ↦ bad e
      ]

  abbrev pub is_string_like : Bool
  is_string_like =
      is_string array.data_type
      || elim (utf32_capacity array.data_type) [ some _ ↦ true | none ↦ false ]

  -- `strings_to_object_pyarray` of what was read
  pub read_objects : Bool → List Aligned → PyResult (Option (PyArray V))
  read_objects is_empty axes = do
    strings ← read_and_slice retrieve_text is_empty axes
    ok (some (objects strings))

  -- `read_string_subset`; `none` where the data type is not string-like.
  pub read_string_subset : Bool → List Aligned → PyResult (Option (PyArray V))
  read_string_subset is_empty axes =
      if not is_string_like then ok none else read_objects is_empty axes

  pub read_numeric : Primitive → Bool → List Aligned → PyResult (PyArray V)
  read_numeric t is_empty axes = do
    elements ← read_and_slice (array.retrieve t) is_empty axes
    ok (numeric t elements)

  not_supported : DtypeNames → PyErr
  not_supported zarrs = record {
    exception = not_implemented_error;
    message =
        codes "rustytree: dtype "
        ++ (zarrs_dtype_zarr_name zarrs array.data_type
            ++ codes
                " is not yet supported by ZarrsArrayHandle.read_subset; supported today: bool, int{8,16,32,64}, uint{8,16,32,64}, float{32,64}");
  }

  -- `for_each_supported_dtype!` with the read as its body
  pub read_supported : DtypeNames → Option Primitive → Bool → List Aligned → PyResult (PyArray V)
  unfolding not_supported
  read_supported zarrs (some t) is_empty axes = read_numeric t is_empty axes
  read_supported zarrs none is_empty axes = raise (not_supported zarrs)

  -- The dispatch on the data type, once the axes are aligned.
  pub read_axes : DtypeNames → Bool → List Aligned → PyResult (PyArray V)
  unfolding read_string_subset read_supported
  read_axes zarrs is_empty axes = do
    result ← read_string_subset is_empty axes
    elim result [
      | some r ↦ ok r
      | none ↦ read_supported zarrs (for_each_supported_dtype array.data_type) is_empty axes
    ]

  -- The chunk shape, the alignment and the read of ranges that passed the checks.
  pub read_checked : DtypeNames → Ranges → PyResult (PyArray V)
  unfolding any_empty align read_axes value_err
  read_checked zarrs ranges = do
    chunk_shape ←
        or_raise (λ e. value_err (codes "zarrs: chunk_shape lookup failed: " ++ e))
          array.chunk_shape
    axes ← or_panic (align ranges chunk_shape array.shape)
    read_axes zarrs (any_empty ranges) axes

  wrong_rank : Ranges → PyErr
  unfolding index_err
  wrong_rank ranges = index_err (
      codes "expected "
      ++ (decimal (length array.shape) ++ (codes " ranges, got " ++ decimal (length ranges))))

  -- `read_subset`
  pub read_subset : DtypeNames → Ranges → PyResult (PyArray V)
  unfolding check_ranges read_checked wrong_rank
  read_subset zarrs ranges =
      if not (length ranges == length array.shape)
      then raise (wrong_rank ranges)
      else elim (check_ranges 0 ranges array.shape) [
        | some e ↦ raise e
        | none ↦ read_checked zarrs ranges
      ]
