-- ===== src/Array/Slice/Tests.antt =====
-- Runs of `slice_nd` on the inputs of its unit tests, and the theorem at one of them.
use rustytree.Prelude.{ℕ, ◌+◌, ◌*◌, ◌≡◌, refl, List, [], ◌∷◌, some, none, arith}
use rustytree.Array.Slice.{slice_nd}
use rustytree.Array.Slice.Indices.{row_major}
use rustytree.Array.Slice.Correct.{shift, slice_nd-row_major}

abbrev first_24 : List ℕ
first_24 =
    0 ∷ 1 ∷ 2 ∷ 3 ∷ 4 ∷ 5 ∷ 6 ∷ 7 ∷ 8 ∷ 9 ∷ 10 ∷ 11 ∷ 12 ∷ 13 ∷ 14 ∷ 15 ∷ 16 ∷ 17 ∷ 18 ∷ 19 ∷ 20
    ∷ 21 ∷ 22 ∷ 23 ∷ []

block_of_cube :
    slice_nd first_24 (2 ∷ 3 ∷ 4 ∷ []) (1 ∷ 1 ∷ 1 ∷ []) (1 ∷ 2 ∷ 2 ∷ [])
    ≡ some (17 ∷ 18 ∷ 21 ∷ 22 ∷ [])
unfolding slice_nd
block_of_cube = refl

scalar : slice_nd {A = ℕ} (7 ∷ []) [] [] [] ≡ some (7 ∷ [])
unfolding slice_nd
scalar = refl

empty_at_offset : slice_nd {A = ℕ} (0 ∷ 1 ∷ 2 ∷ 3 ∷ []) (4 ∷ []) (1 ∷ []) (0 ∷ []) ≡ some []
unfolding slice_nd
empty_at_offset = refl

one_empty_axis :
    slice_nd {A = ℕ} (0 ∷ 1 ∷ 2 ∷ 3 ∷ []) (2 ∷ 2 ∷ []) (0 ∷ 1 ∷ []) (2 ∷ 0 ∷ []) ≡ some []
unfolding slice_nd
one_empty_axis = refl

-- A buffer that is too short is an index out of bounds.
short_buffer : slice_nd {A = ℕ} (5 ∷ []) (3 ∷ []) (1 ∷ []) (2 ∷ []) ≡ none
unfolding slice_nd
short_buffer = refl

abbrev cell : List ℕ → ℕ
cell (r ∷ c ∷ []) = 10 * r + c
cell _ = 0

slice_nd-row_major_example :
    slice_nd (row_major cell (3 ∷ 4 ∷ [])) (3 ∷ 4 ∷ []) (1 ∷ 1 ∷ []) (2 ∷ 2 ∷ [])
    ≡ some (row_major (λ idx. cell (shift (1 ∷ 1 ∷ []) idx)) (2 ∷ 2 ∷ []))
slice_nd-row_major_example =
    slice_nd-row_major cell (3 ∷ 4 ∷ []) (1 ∷ 1 ∷ []) (2 ∷ 2 ∷ []) (omega arith)
