-- ===== src/Array/Slice/Correct.antt =====
-- `slice_nd` against the row-major buffer of a function on multi-indices.
use rustytree.Prelude.{
  ℕ, zero, suc, ◌+◌, ◌*◌, ◌≤◌, ◌≡◌, refl, ◌∙◌, sym, ap, ap₂, true, ◌&&◌, &&_iff, Bool-cases, inl,
  inr, ◌==◌, ==_iff, List, [], ◌∷◌, arith, some, map, length, replicate, get_elem?, All, All-imp,
  map-congr,
}
use native.Mathlib.Decide.{ℕ_discrete}
use rustytree.Array.Slice.{
  product, shape_eq, all_zero, row_major_strides, source_index, slice_loop, slice_nd,
}
use rustytree.Array.Slice.Indices.{
  indices, Within, row_major, position, get_elem?-row_major, row_major_strides_lem, length-indices,
  indices-Within,
}
use rustytree.Array.Slice.Odometer.{Visits, last, more, zeros, Visits-indices}

-- The request lies in the buffer on every axis, and the three shapes have one rank.
abbrev pub Fits : List ℕ → List ℕ → List ℕ → Type 0
Fits [] [] [] = Unit
Fits (m ∷ aligned) (o ∷ offsets) (n ∷ out) = (o + n ≤ m) × Fits aligned offsets out
Fits _ _ _ = ⊥

-- A multi-index of the request, as one of the buffer.
abbrev pub shift : List ℕ → List ℕ → List ℕ
shift (o ∷ offsets) (i ∷ idx) = (o + i) ∷ shift offsets idx
shift _ _ = []

shift-Within :
    (aligned offsets out idx : List ℕ)
    → Fits aligned offsets out
    → Within idx out
    → Within (shift offsets idx) aligned
shift-Within [] [] [] [] f w = tt
shift-Within (m ∷ ms) (o ∷ os) (n ∷ ns) (i ∷ idx) f w =
    (omega arith, shift-Within ms os ns idx f.1 w.1)
shift-Within _ _ _ _ f w = absurd (omega arith)

source_index_lem :
    (aligned offsets out idx : List ℕ)
    → Fits aligned offsets out
    → Within idx out
    → source_index offsets idx (row_major_strides aligned) ≡ position (shift offsets idx) aligned
unfolding source_index
source_index_lem [] [] [] [] f w = refl
source_index_lem (m ∷ ms) (o ∷ os) (n ∷ ns) (i ∷ idx) f w =
    rw (row_major_strides_lem m ms)
      (ap (λ (k : ℕ). (o + i) * product ms + k) (source_index_lem ms os ns idx f.1 w.1))
source_index_lem _ _ _ _ f w = absurd (omega arith)

module _ {ℓ} {A : Type ℓ} (elements : List A) (offsets strides out_shape : List ℕ) where
  -- The loop over the indices of a walk collects what each of them reads.
  slice_loop_lem :
      (read : List ℕ → A) {idx : List ℕ} {seen : List (List ℕ)}
      → Visits out_shape idx seen
      → All (λ r. get_elem? elements (source_index offsets r strides) ≡ some (read r)) seen
      → slice_loop elements offsets strides out_shape (length seen) idx ≡ some (map read seen)
  unfolding slice_loop
  slice_loop_lem read (last e) h = rw (h.0, slice_loop) refl
  slice_loop_lem read (more e v) h = rw (h.0, slice_loop, e, slice_loop_lem read v h.1) refl

  slice_loop_empty :
      (rounds : ℕ) (idx : List ℕ)
      → rounds ≡ 0
      → slice_loop elements offsets strides out_shape rounds idx ≡ some []
  unfolding slice_loop
  slice_loop_empty zero idx e = refl
  slice_loop_empty (suc rounds) idx e = absurd (omega arith)

replicate-zeros :
    (aligned offsets out : List ℕ)
    → Fits aligned offsets out
    → replicate (length aligned) 0 ≡ zeros out
replicate-zeros [] [] [] f = refl
replicate-zeros (m ∷ ms) (o ∷ os) (n ∷ ns) f = ap (λ t. 0 ∷ t) (replicate-zeros ms os ns f.1)
replicate-zeros _ _ _ f = absurd (omega arith)

-- The fast path: nothing is shifted and nothing is cut off.
abbrev IsIdentity : List ℕ → List ℕ → List ℕ → Type 0
IsIdentity aligned offsets out =
    (aligned ≡ out) × ((idx : List ℕ) → Within idx out → shift offsets idx ≡ idx)

shape_eq_sound : (ms ns : List ℕ) → shape_eq ms ns ≡ true → ms ≡ ns
unfolding shape_eq
shape_eq_sound [] [] h = refl
shape_eq_sound [] (n ∷ ns) h = cc
shape_eq_sound (m ∷ ms) [] h = cc
shape_eq_sound (m ∷ ms) (n ∷ ns) h =
    let (here, rest) = (&&_iff (m == n) (shape_eq ms ns)).0 h in
    ap₂ ◌∷◌ ((==_iff m n).0 here) (shape_eq_sound ms ns rest)

all_zero-shift :
    (aligned offsets out idx : List ℕ)
    → Fits aligned offsets out
    → all_zero offsets ≡ true
    → Within idx out
    → shift offsets idx ≡ idx
unfolding all_zero
all_zero-shift [] [] [] [] f h w = refl
all_zero-shift (m ∷ ms) (o ∷ os) (n ∷ ns) (i ∷ idx) f h w =
    let (here, rest) = (&&_iff (o == 0) (all_zero os)).0 h in
    let none_added : o + i ≡ i = omega (arith, (==_iff o 0).0 here) in
    ap₂ ◌∷◌ none_added (all_zero-shift ms os ns idx f.1 rest w.1)
all_zero-shift _ _ _ _ f h w = absurd (omega arith)

-- Buffers of values that agree in the shape are equal.
pub row_major-congr {ℓ} :
    {A : Type ℓ} (f g : List ℕ → A) (out : List ℕ)
    → ((idx : List ℕ) → Within idx out → f idx ≡ g idx)
    → row_major f out ≡ row_major g out
row_major-congr f g out h =
    map-congr f g (indices out)
      (All-imp (λ idx. Within idx out) (λ idx. f idx ≡ g idx) h (indices out) (indices-Within out))

map-nil {ℓ} : {A : Type ℓ} (f : List ℕ → A) (xs : List (List ℕ)) → length xs ≡ 0 → map f xs ≡ []
map-nil f [] e = refl
map-nil f (x ∷ xs) e = absurd (omega arith)

-- The buffer of a shape with an axis of extent 0 is empty.
pub row_major-empty {ℓ} :
    {A : Type ℓ} (value : List ℕ → A) (out : List ℕ) → product out ≡ 0 → row_major value out ≡ []
row_major-empty value out e = map-nil value (indices out) (length-indices out ∙ e)

-- An empty request gives an empty slice, also of a buffer that was not read.
pub slice_nd-empty {ℓ} :
    {A : Type ℓ} (aligned offsets out : List ℕ)
    → product out ≡ 0
    → slice_nd {A = A} [] aligned offsets out ≡ some []
unfolding slice_nd
slice_nd-empty aligned offsets out e =
    elim (Bool-cases (shape_eq aligned out && all_zero offsets)) [
      | inl t ↦ rw t
      | inr t ↦ rw t (slice_loop_empty [] offsets (row_major_strides aligned) out (product out) _ e)
    ]

-- For every array value, every shape of the buffer, and every request that lies in it: the slice of
-- the row-major buffer does not panic, and is the row-major buffer of the request, which holds at
-- each index the value at that index shifted by the offsets.
pub slice_nd-row_major {ℓ} :
    {A : Type ℓ} (value : List ℕ → A) (aligned offsets out : List ℕ)
    → Fits aligned offsets out
    → slice_nd (row_major value aligned) aligned offsets out
      ≡ some (row_major (λ idx. value (shift offsets idx)) out)
unfolding slice_nd
slice_nd-row_major {A} value aligned offsets out f =
    elim (Bool-cases (shape_eq aligned out && all_zero offsets)) [
      | inl t ↦
          let (same, none_shifted) = (&&_iff (shape_eq aligned out) (all_zero offsets)).0 t in
          rw (t, shape_eq_sound aligned out same)
            (ap some (
              row_major-congr value (λ idx. value (shift offsets idx)) out
                (λ idx w.
                  ap value (sym (all_zero-shift aligned offsets out idx f none_shifted w)))))
      | inr t ↦ rw (t, replicate-zeros aligned offsets out f) (walk (ℕ_discrete (product out) 0))
    ]
  where
    strides : List ℕ
    strides = row_major_strides aligned

    read : List ℕ → A
    read idx = value (shift offsets idx)

    reads :
        (idx : List ℕ)
        → Within idx out
        → get_elem? (row_major value aligned) (source_index offsets idx strides) ≡ some (read idx)
    reads idx w = rw (source_index_lem aligned offsets out idx f w) (
        get_elem?-row_major value (shift offsets idx) aligned
          (shift-Within aligned offsets out idx f w))

    walk :
        Dec (product out ≡ 0)
        → slice_loop (row_major value aligned) offsets strides out (product out) (zeros out)
          ≡ some (row_major read out)
    walk (yes e) =
        let nothing : length (indices out) ≡ 0 = length-indices out ∙ e in
        slice_loop_empty (row_major value aligned) offsets strides out (product out) (zeros out) e
        ∙ ap some (sym (map-nil read (indices out) nothing))
    walk (no ne) = rw (← length-indices out) (
        slice_loop_lem (row_major value aligned) offsets strides out read (Visits-indices out ne)
          (All-imp (λ idx. Within idx out) _ reads (indices out) (indices-Within out)))
