-- ===== src/Array/Dtype/Sample.antt =====
-- The names that zarrs gives to the data types of Zarr V3.
use rustytree.Prelude.{refl, Option, none, some, Text, codes}
use rustytree.Array.Dtype.{
  DataType, bool, int8, int16, int32, int64, uint8, uint16, uint32, uint64, float32, float64,
  DtypeNames,
}
use rustytree.Array.Dtype.Laws.{UsesZarrV3}

abbrev pub v3_name : DataType → Option Text
v3_name bool = some (codes "bool")
v3_name int8 = some (codes "int8")
v3_name int16 = some (codes "int16")
v3_name int32 = some (codes "int32")
v3_name int64 = some (codes "int64")
v3_name uint8 = some (codes "uint8")
v3_name uint16 = some (codes "uint16")
v3_name uint32 = some (codes "uint32")
v3_name uint64 = some (codes "uint64")
v3_name float32 = some (codes "float32")
v3_name float64 = some (codes "float64")
v3_name _ = none

abbrev pub v3_names : DtypeNames
v3_names = record { name_v3 = v3_name; display = λ _. codes "?" }

pub v3_names-UsesZarrV3 : UsesZarrV3 v3_names
v3_names-UsesZarrV3 = record {
  bool_v3 = refl;
  int8_v3 = refl;
  int16_v3 = refl;
  int32_v3 = refl;
  int64_v3 = refl;
  uint8_v3 = refl;
  uint16_v3 = refl;
  uint32_v3 = refl;
  uint64_v3 = refl;
  float32_v3 = refl;
  float64_v3 = refl;
}
