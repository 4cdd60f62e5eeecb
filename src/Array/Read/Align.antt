-- ===== src/Array/Read/Align.antt =====
-- The alignment loop of `read_subset`: what its ranges, offsets and extents are.
use rustytree.Prelude.{
  ℕ, ◌+◌, ◌-◌, ◌*◌, ◌/◌, ◌%◌, ◌≤◌, ◌<◌, ◌≡◌, ◌≢◌, refl, ◌∙◌, sym, ap, ap₂, min, max, List, [], ◌∷◌,
  arith, some, map, ◌==◌, Bool-cases, inl, inr, ◌⊎◌, ltb, ltb→lt, ltb→le,
}
use native.Mathlib.Nat.{div-add-mod, mod-lt, mod-eq_of_lt, mul_comm}
use rustytree.Zarrs.{Ranges}
use rustytree.Array.Read.{u64, mul64, sub64, div_ceil, Aligned, align_axis, align}
use rustytree.Array.Slice.Correct.{Fits, shift}

mul64_id : (a b : ℕ) → a * b < u64 → mul64 a b ≡ a * b
mul64_id a b h = mod-eq_of_lt h

sub64_id : (a b : ℕ) → b ≤ a → a < u64 → sub64 a b ≡ a - b
sub64_id a b h k = omega arith

floor-le : (a c : ℕ) → a / c * c ≤ a
floor-le a c = grind (arith, div-add-mod a c)

ceil_bounds : (a c : ℕ) → 0 < c → (a ≤ div_ceil a c * c) × (div_ceil a c * c < a + c)
ceil_bounds a c h = elim (Bool-cases (a % c == 0)) [
  | inl e ↦ let z : a % c ≡ 0 = ground arith in rw e (exact z)
  | inr e ↦ let z : a % c ≢ 0 = ground arith in rw e (above z)
]
  where
    whole : a / c * c + a % c ≡ a
    whole = ap (λ (k : ℕ). k + a % c) (mul_comm (a / c) c) ∙ div-add-mod a c

    exact : a % c ≡ 0 → (a ≤ a / c * c) × (a / c * c < a + c)
    exact z = omega (arith, whole)

    above : a % c ≢ 0 → (a ≤ (a / c + 1) * c) × ((a / c + 1) * c < a + c)
    above z =
        let next : (a / c + 1) * c ≡ a / c * c + c = grind arith in
        let below : a % c < c = mod-lt a h in omega (arith, whole)

-- A range that lies in its axis, aligned without overflow.
abbrev pub FitsAxis : ℕ → ℕ → ℕ → ℕ → Type 0
FitsAxis start stop chunk n = (start ≤ stop) × (stop ≤ n) × (n < u64) × (stop + max chunk 1 ≤ u64)

-- What the alignment of one axis gives.
pub record Covers (start stop n : ℕ) (a : Aligned) : Type 0 where
  pub inside : a.range.1 ≤ n
  pub ordered : a.range.0 ≤ a.range.1
  pub placed : a.range.0 + a.offset ≡ start
  pub extent : a.extent ≡ stop - start
  pub aligned_extent : a.aligned_extent ≡ a.range.1 - a.range.0
  pub fits : a.offset + a.extent ≤ a.aligned_extent

Covers-rounded :
    (start stop n lo hi : ℕ)
    → lo ≤ start
    → stop ≤ hi
    → start ≤ stop
    → stop ≤ n
    → n < u64
    → Covers start stop n (record {
      range = (lo, min hi n);
      offset = sub64 start lo;
      extent = sub64 stop start;
      aligned_extent = sub64 (min hi n) lo;
    })
Covers-rounded start stop n lo hi h₁ h₂ h₃ h₄ h₅ = omega arith

-- For a range that lies in its axis, aligned without overflow, with a chunk of any extent: the
-- aligned range stays in the axis, the request lies in it at the computed offset with its own
-- length, and no subtraction wraps.
pub align_axis-Covers :
    (start stop chunk n : ℕ)
    → FitsAxis start stop chunk n
    → Covers start stop n (align_axis start stop chunk n)
unfolding align_axis
align_axis-Covers start stop chunk n (le, le', small, room) =
    let cs = max chunk 1 in
    let floor = floor-le start cs in
    let (above, near) = ceil_bounds stop cs (omega arith) in
    let down : mul64 (start / cs) cs ≡ start / cs * cs = mul64_id (start / cs) cs (omega arith) in
    let up : mul64 (div_ceil stop cs) cs ≡ div_ceil stop cs * cs =
      mul64_id (div_ceil stop cs) cs (omega arith) in
    rw (down, up)
      (Covers-rounded start stop n (start / cs * cs) (div_ceil stop cs * cs) floor above le le'
        small)

min_cases : (a b : ℕ) → (min a b ≡ b) ⊎ (min a b ≡ a)
min_cases a b = elim (Bool-cases (ltb b a)) [
  | inl e ↦ let lt = ltb→lt b a e in inl (omega arith)
  | inr e ↦ let le = ltb→le b a e in inr (omega arith)
]

-- For a range that lies in its axis, aligned without overflow, with a chunk of any extent: the
-- aligned range begins on a chunk boundary, and ends on one or at the end of the axis; a chunk of
-- extent 0 counts as one of extent 1.
pub align_axis-chunks :
    (start stop chunk n : ℕ)
    → FitsAxis start stop chunk n
    → ((q : ℕ) × ((align_axis start stop chunk n).range.0 ≡ q * max chunk 1))
      × (((align_axis start stop chunk n).range.1 ≡ n)
          ⊎ ((q : ℕ) × ((align_axis start stop chunk n).range.1 ≡ q * max chunk 1)))
unfolding align_axis
align_axis-chunks start stop chunk n (le, le', small, room) =
    let cs = max chunk 1 in
    let floor = floor-le start cs in
    let (above, near) = ceil_bounds stop cs (omega arith) in
    let down : mul64 (start / cs) cs ≡ start / cs * cs = mul64_id (start / cs) cs (omega arith) in
    let up : mul64 (div_ceil stop cs) cs ≡ div_ceil stop cs * cs =
      mul64_id (div_ceil stop cs) cs (omega arith) in
    (
      (start / cs, down),
      elim (min_cases (mul64 (div_ceil stop cs) cs) n) [
        | inl e ↦ inl e
        | inr e ↦ inr (div_ceil stop cs, e ∙ up)
      ],
    )

-- The same on every axis, with one rank throughout.
abbrev pub FitsAxes : Ranges → List ℕ → List ℕ → Type 0
FitsAxes [] [] [] = Unit
FitsAxes ((start, stop) ∷ ranges) (chunk ∷ chunks) (n ∷ shape) =
    FitsAxis start stop chunk n × FitsAxes ranges chunks shape
FitsAxes _ _ _ = ⊥

abbrev pub CoversAll : Ranges → List ℕ → List Aligned → Type 0
CoversAll [] [] [] = Unit
CoversAll ((start, stop) ∷ ranges) (n ∷ shape) (a ∷ axes) =
    Covers start stop n a × CoversAll ranges shape axes
CoversAll _ _ _ = ⊥

pub align-CoversAll :
    (ranges : Ranges) (chunks shape : List ℕ)
    → FitsAxes ranges chunks shape
    → (axes : List Aligned) × (align ranges chunks shape ≡ some axes) × CoversAll ranges shape axes
unfolding align
align-CoversAll [] [] [] f = ([], refl, tt)
align-CoversAll ((start, stop) ∷ ranges) (chunk ∷ chunks) (n ∷ shape) (f, fs) =
    let (axes, e, c) = align-CoversAll ranges chunks shape fs in
    (align_axis start stop chunk n ∷ axes, rw e, (align_axis-Covers start stop chunk n f, c))
align-CoversAll [] [] (_ ∷ _) f = absurd f
align-CoversAll [] (_ ∷ _) _ f = absurd f
align-CoversAll (_ ∷ _) [] _ f = absurd f
align-CoversAll (_ ∷ _) (_ ∷ _) [] f = absurd f

-- The starts of ranges, and their lengths.
abbrev pub starts : Ranges → List ℕ
starts ranges = map (λ r. r.0) ranges

abbrev pub extents : Ranges → List ℕ
extents ranges = map (λ r. r.1 - r.0) ranges

-- Ranges that the checks of `read_subset` let through.
abbrev pub InBounds : Ranges → List ℕ → Type 0
InBounds [] [] = Unit
InBounds ((start, stop) ∷ ranges) (n ∷ shape) = (start ≤ stop) × (stop ≤ n) × InBounds ranges shape
InBounds _ _ = ⊥

-- The aligned ranges stay in the array.
pub CoversAll-InBounds :
    (ranges : Ranges) (shape : List ℕ) (axes : List Aligned)
    → CoversAll ranges shape axes
    → InBounds (map (λ a. a.range) axes) shape
CoversAll-InBounds [] [] [] c = tt
CoversAll-InBounds (r ∷ ranges) (n ∷ shape) (a ∷ axes) (c, cs) =
    (c.ordered, c.inside, CoversAll-InBounds ranges shape axes cs)
CoversAll-InBounds [] [] (_ ∷ _) c = absurd c
CoversAll-InBounds [] (_ ∷ _) _ c = absurd c
CoversAll-InBounds (_ ∷ _) [] _ c = absurd c
CoversAll-InBounds (_ ∷ _) (_ ∷ _) [] c = absurd c

-- The request lies in the buffer that is read.
pub CoversAll-Fits :
    (ranges : Ranges) (shape : List ℕ) (axes : List Aligned)
    → CoversAll ranges shape axes
    → Fits (map (λ a. a.aligned_extent) axes) (map (λ a. a.offset) axes) (map (λ a. a.extent) axes)
CoversAll-Fits [] [] [] c = tt
CoversAll-Fits (r ∷ ranges) (n ∷ shape) (a ∷ axes) (c, cs) =
    (c.fits, CoversAll-Fits ranges shape axes cs)
CoversAll-Fits [] [] (_ ∷ _) c = absurd c
CoversAll-Fits [] (_ ∷ _) _ c = absurd c
CoversAll-Fits (_ ∷ _) [] _ c = absurd c
CoversAll-Fits (_ ∷ _) (_ ∷ _) [] c = absurd c

-- The shape of the slice is that of the request, and the shape of the buffer that of the read.
pub CoversAll-extents :
    (ranges : Ranges) (shape : List ℕ) (axes : List Aligned)
    → CoversAll ranges shape axes
    → (map (λ a. a.extent) axes ≡ extents ranges)
      × (extents (map (λ a. a.range) axes) ≡ map (λ a. a.aligned_extent) axes)
CoversAll-extents [] [] [] c = (refl, refl)
CoversAll-extents (r ∷ ranges) (n ∷ shape) (a ∷ axes) (c, cs) =
    let (own, read) = CoversAll-extents ranges shape axes cs in
    (ap₂ ◌∷◌ c.extent own, ap₂ ◌∷◌ (sym c.aligned_extent) read)
CoversAll-extents [] [] (_ ∷ _) c = absurd c
CoversAll-extents [] (_ ∷ _) _ c = absurd c
CoversAll-extents (_ ∷ _) [] _ c = absurd c
CoversAll-extents (_ ∷ _) (_ ∷ _) [] c = absurd c

-- An index of the request, shifted into the buffer and then into the array, is where it should be.
pub CoversAll-shift :
    (ranges : Ranges) (shape : List ℕ) (axes : List Aligned) (idx : List ℕ)
    → CoversAll ranges shape axes
    → shift (starts (map (λ a. a.range) axes)) (shift (map (λ a. a.offset) axes) idx)
      ≡ shift (starts ranges) idx
CoversAll-shift [] [] [] idx c = refl
CoversAll-shift (r ∷ ranges) (n ∷ shape) (a ∷ axes) [] c = refl
CoversAll-shift ((start, stop) ∷ ranges) (n ∷ shape) (a ∷ axes) (i ∷ idx) (c, cs) =
    let here : a.range.0 + (a.offset + i) ≡ start + i = omega (arith, c.placed) in
    ap₂ ◌∷◌ here (CoversAll-shift ranges shape axes idx cs)
CoversAll-shift [] [] (_ ∷ _) idx c = absurd c
CoversAll-shift [] (_ ∷ _) _ idx c = absurd c
CoversAll-shift (_ ∷ _) [] _ idx c = absurd c
CoversAll-shift (_ ∷ _) (_ ∷ _) [] idx c = absurd c
