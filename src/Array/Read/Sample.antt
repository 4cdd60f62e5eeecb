-- ===== src/Array/Read/Sample.antt =====
-- A small chunked array.
use rustytree.Prelude.{ℕ, ◌+◌, ◌*◌, List, [], ◌∷◌, none, Text, codes}
use rustytree.Zarrs.{good, bad, ZarrsArray}
use rustytree.Array.Dtype.{DataType}
use rustytree.Array.Read.Laws.{slab}

abbrev pub cell : List ℕ → ℕ
cell (r ∷ c ∷ []) = 10 * r + c
cell _ = 0

abbrev pub label : List ℕ → Text
label idx = cell idx ∷ []

-- 5 by 7, in chunks of 2 by 3; the last chunks are ragged.
abbrev pub grid : DataType → ZarrsArray ℕ
grid dtype = record {
  path = codes "/g/x";
  shape = 5 ∷ 7 ∷ [];
  data_type = dtype;
  dimension_names = none;
  attributes = [];
  chunk_shape = good (2 ∷ 3 ∷ []);
  retrieve = λ t ranges. good (slab cell ranges);
  retrieve_strings = λ ranges. good (slab label ranges);
  retrieve_chars = λ ranges. bad (codes "not rows of chars");
}
