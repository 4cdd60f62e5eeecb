-- ===== src/Array/Slice.antt =====
-- `slice_nd` of src/array.rs: a hyperrectangle out of a flat row-major buffer.
pub mod Indices
mod Odometer
pub mod Correct
mod Tests
use package.rustytree.Prelude.{
  ℕ, zero, suc, ◌+◌, ◌*◌, Bool, true, false, ◌&&◌, if◌then◌else◌, ltb, ◌==◌, Option, none, some,
  List, [], ◌∷◌, length, replicate, get_elem?,
}
use mathlib.Core.Option

-- `xs.iter().product()`
abbrev pub product : List ℕ → ℕ
product [] = 1
product (n ∷ ns) = n * product ns

-- `aligned_shape == out_shape`
pub shape_eq : List ℕ → List ℕ → Bool
shape_eq [] [] = true
shape_eq (m ∷ ms) (n ∷ ns) = (m == n) && shape_eq ms ns
shape_eq _ _ = false

-- `offsets.iter().all(|o| *o == 0)`
pub all_zero : List ℕ → Bool
all_zero [] = true
all_zero (o ∷ os) = (o == 0) && all_zero os

-- The loop that fills `src_strides` from the last axis: 1 there, and on each axis before it the
-- next stride times the next extent.
pub row_major_strides : List ℕ → List ℕ
row_major_strides [] = []
row_major_strides (m ∷ []) = 1 ∷ []
row_major_strides (m ∷ n ∷ ns) = elim (row_major_strides (n ∷ ns)) [
  | [] ↦ []
  | s ∷ ss ↦ (s * n) ∷ s ∷ ss
]

-- `src += (offsets[i] + idx[i]) * src_strides[i]` over the axes.
pub source_index : List ℕ → List ℕ → List ℕ → ℕ
source_index (o ∷ os) (i ∷ idx) (s ∷ ss) = (o + i) * s + source_index os idx ss
source_index _ _ _ = 0

-- The loop over the axes from the last: add one, stop if that stays in the extent, and otherwise
-- write 0 and go on to the axis before. The second part tells whether every axis wrapped.
pub advance : List ℕ → List ℕ → List ℕ × Bool
advance (i ∷ idx) (n ∷ out_shape) =
    let (rest, wrapped) = advance idx out_shape in
    if wrapped
    then (if ltb (i + 1) n then ((i + 1) ∷ rest, false) else (0 ∷ rest, true))
    else (i ∷ rest, false)
advance _ _ = ([], true)

module _ {ℓ} {A : Type ℓ} where
  -- `for _ in 0..total_out`; `none` is the panic of an index out of bounds in `elements[src]`.
  pub slice_loop : List A → List ℕ → List ℕ → List ℕ → ℕ → List ℕ → Option (List A)
  unfolding source_index advance
  slice_loop elements offsets strides out_shape zero idx = some []
  slice_loop elements offsets strides out_shape (suc rounds) idx =
      elim (get_elem? elements (source_index offsets idx strides)) [
        | none ↦ none
        | some x ↦
            Option.map (λ out. x ∷ out)
              (slice_loop elements offsets strides out_shape rounds (advance idx out_shape).0)
      ]

  -- `slice_nd`
  unfoldable pub slice_nd : List A → List ℕ → List ℕ → List ℕ → Option (List A)
  unfolding shape_eq all_zero row_major_strides slice_loop
  slice_nd elements aligned_shape offsets out_shape =
      let walk =
        slice_loop elements offsets (row_major_strides aligned_shape) out_shape (product out_shape)
          (replicate (length aligned_shape) 0) in
      if shape_eq aligned_shape out_shape && all_zero offsets then some elements else walk
