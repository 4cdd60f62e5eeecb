-- ===== src/Array/Dtype/Laws.antt =====
-- Primitive types and NumPy names of the data types in src/array.rs and src/dtype_dispatch.rs.
use rustytree.Prelude.{◌≡◌, arith, Text, codes, some}
use rustytree.Array.Dtype.{
  DataType, bool, int8, int16, int32, int64, uint8, uint16, uint32, uint64, float32, float64,
  Primitive, p_bool, p_i8, p_i16, p_i32, p_i64, p_u8, p_u16, p_u32, p_u64, p_f32, p_f64,
  for_each_supported_dtype, DtypeNames, zarrs_dtype_to_numpy_str, zarrs_dtype_read_numpy_str,
}

-- The name that NumPy gives to the elements of a buffer of a Rust type.
abbrev pub numpy_name : Primitive → Text
numpy_name p_bool = codes "bool"
numpy_name p_i8 = codes "int8"
numpy_name p_i16 = codes "int16"
numpy_name p_i32 = codes "int32"
numpy_name p_i64 = codes "int64"
numpy_name p_u8 = codes "uint8"
numpy_name p_u16 = codes "uint16"
numpy_name p_u32 = codes "uint32"
numpy_name p_u64 = codes "uint64"
numpy_name p_f32 = codes "float32"
numpy_name p_f64 = codes "float64"

-- The names of the Zarr V3 specification for the data types that it defines.
pub record UsesZarrV3 (zarrs : DtypeNames) : Type 0 where
  pub bool_v3 : zarrs.name_v3 bool ≡ some (codes "bool")
  pub int8_v3 : zarrs.name_v3 int8 ≡ some (codes "int8")
  pub int16_v3 : zarrs.name_v3 int16 ≡ some (codes "int16")
  pub int32_v3 : zarrs.name_v3 int32 ≡ some (codes "int32")
  pub int64_v3 : zarrs.name_v3 int64 ≡ some (codes "int64")
  pub uint8_v3 : zarrs.name_v3 uint8 ≡ some (codes "uint8")
  pub uint16_v3 : zarrs.name_v3 uint16 ≡ some (codes "uint16")
  pub uint32_v3 : zarrs.name_v3 uint32 ≡ some (codes "uint32")
  pub uint64_v3 : zarrs.name_v3 uint64 ≡ some (codes "uint64")
  pub float32_v3 : zarrs.name_v3 float32 ≡ some (codes "float32")
  pub float64_v3 : zarrs.name_v3 float64 ≡ some (codes "float64")

-- With the names of the Zarr V3 specification: a data type that the dispatch reads as a primitive
-- type is declared, and read, under the NumPy name of that primitive type.
pub supported_names :
    (zarrs : DtypeNames) (dtype : DataType) (t : Primitive)
    → UsesZarrV3 zarrs
    → for_each_supported_dtype dtype ≡ some t
    → (zarrs_dtype_to_numpy_str zarrs dtype ≡ numpy_name t)
      × (zarrs_dtype_read_numpy_str zarrs dtype ≡ numpy_name t)
unfolding for_each_supported_dtype zarrs_dtype_read_numpy_str
supported_names zarrs bool t v e = ground arith
supported_names zarrs int8 t v e = ground arith
supported_names zarrs int16 t v e = ground arith
supported_names zarrs int32 t v e = ground arith
supported_names zarrs int64 t v e = ground arith
supported_names zarrs uint8 t v e = ground arith
supported_names zarrs uint16 t v e = ground arith
supported_names zarrs uint32 t v e = ground arith
supported_names zarrs uint64 t v e = ground arith
supported_names zarrs float32 t v e = ground arith
supported_names zarrs float64 t v e = ground arith
supported_names zarrs _ t v e = cc
