-- ===== src/Array/Read/Checks.antt =====
-- The range checks of `read_subset`.
use rustytree.Prelude.{
  ℕ, suc, ◌+◌, ◌≤◌, ◌≡◌, refl, ap, ◌⊎◌, inl, inr, Bool-cases, List, [], ◌∷◌, arith, Option, some,
  none, length, ltb, ltb→le, le→ltb,
}
use rustytree.Error.{PyErr, value_error, index_error}
use rustytree.Zarrs.{Ranges}
use rustytree.Array.Read.{check_ranges}
use rustytree.Array.Read.Align.{FitsAxes, InBounds}

-- The checks let through exactly the ranges in bounds.
pub check_ranges-InBounds :
    (i : ℕ) (ranges : Ranges) (shape : List ℕ)
    → InBounds ranges shape
    → (length ranges ≡ length shape) × (check_ranges i ranges shape ≡ none)
unfolding check_ranges
check_ranges-InBounds i [] [] b = (refl, refl)
check_ranges-InBounds i ((start, stop) ∷ ranges) (n ∷ shape) (h, k, b) =
    let (e, rest) = check_ranges-InBounds (i + 1) ranges shape b in
    (ap suc e, rw (le→ltb stop start h, le→ltb n stop k) rest)
check_ranges-InBounds i [] (_ ∷ _) b = absurd b
check_ranges-InBounds i (_ ∷ _) [] b = absurd b

-- The exception of a refused range.
abbrev pub IsRangeError : PyErr → Type 0
IsRangeError e = (PyErr.exception e ≡ index_error) ⊎ (PyErr.exception e ≡ value_error)

-- Either the ranges are in bounds, or the checks refuse them.
abbrev pub CheckedRanges : Option PyErr → Ranges → List ℕ → Type 0
CheckedRanges none ranges shape = InBounds ranges shape
CheckedRanges (some e) ranges shape = IsRangeError e

CheckedRanges-later :
    (o : Option PyErr) (start stop n : ℕ) (ranges : Ranges) (shape : List ℕ)
    → start ≤ stop
    → stop ≤ n
    → CheckedRanges o ranges shape
    → CheckedRanges o ((start, stop) ∷ ranges) (n ∷ shape)
CheckedRanges-later none start stop n ranges shape h k c = (h, k, c)
CheckedRanges-later (some e) start stop n ranges shape h k c = c

pub check_ranges-CheckedRanges :
    (i : ℕ) (ranges : Ranges) (shape : List ℕ)
    → length ranges ≡ length shape
    → CheckedRanges (check_ranges i ranges shape) ranges shape
unfolding check_ranges
check_ranges-CheckedRanges i [] [] e = tt
check_ranges-CheckedRanges i [] (_ ∷ _) e = absurd (omega arith)
check_ranges-CheckedRanges i (_ ∷ _) [] e = absurd (omega arith)
check_ranges-CheckedRanges i ((start, stop) ∷ ranges) (n ∷ shape) e =
    elim (Bool-cases (ltb stop start)) [
      | inl t ↦ rw t (inr refl)
      | inr t ↦ elim (Bool-cases (ltb n stop)) [
        | inl u ↦ rw (t, u) (inl refl)
        | inr u ↦
            rw (t, u)
              (CheckedRanges-later (check_ranges (i + 1) ranges shape) start stop n ranges shape
                (ltb→le _ _ t) (ltb→le _ _ u)
                (check_ranges-CheckedRanges (i + 1) ranges shape (omega arith)))
      ]
    ]

pub FitsAxes-InBounds :
    (ranges : Ranges) (chunks shape : List ℕ) → FitsAxes ranges chunks shape → InBounds ranges shape
FitsAxes-InBounds [] [] [] f = tt
FitsAxes-InBounds (r ∷ ranges) (chunk ∷ chunks) (n ∷ shape) (f, fs) =
    (f.0, f.1, FitsAxes-InBounds ranges chunks shape fs)
FitsAxes-InBounds [] [] (_ ∷ _) f = absurd f
FitsAxes-InBounds [] (_ ∷ _) _ f = absurd f
FitsAxes-InBounds (_ ∷ _) [] _ f = absurd f
FitsAxes-InBounds (_ ∷ _) (_ ∷ _) [] f = absurd f
