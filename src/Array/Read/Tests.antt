-- ===== src/Array/Read/Tests.antt =====
-- Reads of a small chunked array, and the theorems at them.
use rustytree.Prelude.{ℕ, ◌*◌, max, ◌⊎◌, ◌≡◌, refl, [], ◌∷◌, arith, none, codes, decimal}
use rustytree.Error.{PyErr, value_error}
use rustytree.Zarrs.{Ranges}
use rustytree.Array.Dtype.{int32, string, p_i32, DtypeNames, for_each_supported_dtype}
use rustytree.Array.Slice.{slice_nd}
use rustytree.Array.Read.{
  ok, raise, numeric, objects, align_axis, read_subset, read_and_slice, read_numeric, retrieve_text,
}
use rustytree.Array.Read.Sample.{cell, label, grid}
use rustytree.Array.Read.Align.{FitsAxis, Covers, align_axis-Covers, align_axis-chunks}
use rustytree.Array.Read.Checks.{IsRangeError}
use rustytree.Array.Read.Laws.{slab, read_subset-refuses, read_subset-numeric, read_subset-strings}

abbrev names_of_tests : DtypeNames
names_of_tests = record { name_v3 = λ d. none; display = λ d. codes "?" }

abbrev corner : Ranges
corner = (1, 3) ∷ (2, 7) ∷ []

inner_block :
    read_subset (grid int32) names_of_tests corner
    ≡ ok (numeric p_i32 (12 ∷ 13 ∷ 14 ∷ 15 ∷ 16 ∷ 22 ∷ 23 ∷ 24 ∷ 25 ∷ 26 ∷ []))
unfolding read_subset read_numeric read_and_slice slice_nd for_each_supported_dtype
inner_block = refl

reversed_range :
    read_subset (grid int32) names_of_tests ((3, 1) ∷ (0, 7) ∷ [])
    ≡ raise (record { exception = value_error; message = codes "range[0]: start 3 > stop 1" })
unfolding read_subset decimal
reversed_range = refl

read_subset-numeric_example :
    read_subset (grid int32) names_of_tests corner ≡ ok (numeric p_i32 (slab cell corner))
unfolding for_each_supported_dtype
read_subset-numeric_example =
    read_subset-numeric names_of_tests (grid int32) p_i32 cell corner (2 ∷ 3 ∷ []) refl
      (λ r b. refl) refl (omega arith)

read_subset-strings_example :
    read_subset (grid string) names_of_tests corner ≡ ok (objects (slab label corner))
unfolding retrieve_text
read_subset-strings_example =
    read_subset-strings names_of_tests (grid string) label corner (2 ∷ 3 ∷ []) refl (λ r b. refl)
      refl (omega arith)

read_subset-refuses_example :
    (e : PyErr) × (read_subset (grid int32) names_of_tests ((0, 5) ∷ (0, 8) ∷ []) ≡ raise e)
    × IsRangeError e
read_subset-refuses_example =
    read_subset-refuses names_of_tests (grid int32) ((0, 5) ∷ (0, 8) ∷ []) (λ b. omega arith)

corner-FitsAxis : FitsAxis 2 7 3 7
corner-FitsAxis = (omega arith, omega arith, omega arith, omega arith)

align_axis-Covers_example : Covers 2 7 7 (align_axis 2 7 3 7)
align_axis-Covers_example = align_axis-Covers 2 7 3 7 corner-FitsAxis

align_axis-chunks_example :
    ((q : ℕ) × ((align_axis 2 7 3 7).range.0 ≡ q * max 3 1))
    × (((align_axis 2 7 3 7).range.1 ≡ 7)
        ⊎ ((q : ℕ) × ((align_axis 2 7 3 7).range.1 ≡ q * max 3 1)))
align_axis-chunks_example = align_axis-chunks 2 7 3 7 corner-FitsAxis
