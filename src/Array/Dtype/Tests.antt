-- ===== src/Array/Dtype/Tests.antt =====
-- The names of single data types.
use rustytree.Prelude.{◌≡◌, refl, some, codes}
use rustytree.Array.Dtype.{
  int16, fixed_length_utf32, p_i16, for_each_supported_dtype, zarrs_dtype_to_numpy_str,
}
use rustytree.Array.Dtype.Sample.{v3_names}

utf32_name : zarrs_dtype_to_numpy_str v3_names (fixed_length_utf32 12) ≡ codes "<U12"
unfolding zarrs_dtype_to_numpy_str
utf32_name = refl

int16_read : for_each_supported_dtype int16 ≡ some p_i16
unfolding for_each_supported_dtype
int16_read = refl
