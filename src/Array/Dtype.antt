-- ===== src/Array/Dtype.antt =====
-- The data types of zarrs as the crate reads them: the primitive type of each supported one
-- (src/dtype_dispatch.rs), and their NumPy names (src/array.rs).
pub mod Laws
pub mod Sample
mod Tests
use package.rustytree.Prelude.{
  ℕ, List, [], ◌∷◌, ◌++◌, Option, none, some, Bool, true, false, ◌||◌, if◌then◌else◌, Text, codes,
  decimal,
}

-- A `zarrs::array::DataType`, by the marker types that the crate tests for. `unsupported` is any
-- other one, told from the rest by a text.
pub data DataType : Type 0 where
  bool int8 int16 int32 int64 uint8 uint16 uint32 uint64 float32 float64 : DataType
  bytes string : DataType
  fixed_length_utf32 : ℕ → DataType
  unsupported : Text → DataType

-- The Rust types that `for_each_supported_dtype!` binds `T` to.
pub data Primitive : Type 0 where
  p_bool p_i8 p_i16 p_i32 p_i64 p_u8 p_u16 p_u32 p_u64 p_f32 p_f64 : Primitive

-- The chain of `is::<Marker>()` tests; `none` is the fallback.
unfoldable pub for_each_supported_dtype : DataType → Option Primitive
for_each_supported_dtype bool = some p_bool
for_each_supported_dtype int8 = some p_i8
for_each_supported_dtype int16 = some p_i16
for_each_supported_dtype int32 = some p_i32
for_each_supported_dtype int64 = some p_i64
for_each_supported_dtype uint8 = some p_u8
for_each_supported_dtype uint16 = some p_u16
for_each_supported_dtype uint32 = some p_u32
for_each_supported_dtype uint64 = some p_u64
for_each_supported_dtype float32 = some p_f32
for_each_supported_dtype float64 = some p_f64
for_each_supported_dtype _ = none

abbrev pub is_string : DataType → Bool
is_string string = true
is_string _ = false

abbrev pub is_bytes : DataType → Bool
is_bytes bytes = true
is_bytes _ = false

-- `downcast_ref::<FixedLengthUTF32DataType>()`, with the capacity in code points.
abbrev pub utf32_capacity : DataType → Option ℕ
utf32_capacity (fixed_length_utf32 n) = some n
utf32_capacity _ = none

-- What zarrs says of a data type: its V3 name, if it has one, and its `Display`.
pub record DtypeNames : Type 0 where
  pub name_v3 : DataType → Option Text
  pub display : DataType → Text

module _ (zarrs : DtypeNames) where
  -- `zarrs_dtype_zarr_name`
  unfoldable pub zarrs_dtype_zarr_name : DataType → Text
  zarrs_dtype_zarr_name dtype = elim (zarrs.name_v3 dtype) [
    | some name ↦ name
    | none ↦ zarrs.display dtype
  ]

  -- `zarrs_dtype_to_numpy_str`
  unfoldable pub zarrs_dtype_to_numpy_str : DataType → Text
  unfolding zarrs_dtype_zarr_name decimal
  zarrs_dtype_to_numpy_str dtype =
      if is_bytes dtype || is_string dtype then codes "object" else elim (utf32_capacity dtype) [
        | some n ↦ codes "<U" ++ decimal n
        | none ↦ zarrs_dtype_zarr_name dtype
      ]

  -- `zarrs_dtype_read_numpy_str`
  pub zarrs_dtype_read_numpy_str : DataType → Text
  unfolding zarrs_dtype_to_numpy_str
  zarrs_dtype_read_numpy_str dtype =
      if is_string dtype then codes "T" else zarrs_dtype_to_numpy_str dtype
