-- ===== src/Array/Slice/Odometer.antt =====
-- The multi-index that the loop of `slice_nd` advances.
use rustytree.Prelude.{
  ℕ, zero, suc, ◌+◌, ◌≤◌, ◌<◌, ◌≡◌, ◌≢◌, refl, true, false, le→ltb, lt→ltb, List, [], ◌∷◌, ◌++◌,
  arith, map, append-nil,
}
use rustytree.Array.Slice.{product, advance}
use rustytree.Array.Slice.Indices.{blocks, indices}

abbrev pub zeros : List ℕ → List ℕ
zeros [] = []
zeros (n ∷ ns) = 0 ∷ zeros ns

-- From `idx` the index takes the values of the list, and after the last of them every axis wraps.
pub data Visits (shape : List ℕ) : List ℕ → List (List ℕ) → Type 0 where
  last : {idx : List ℕ} → advance idx shape ≡ (zeros shape, true) → Visits shape idx (idx ∷ [])
  more :
      {idx next : List ℕ} {seen : List (List ℕ)}
      → advance idx shape ≡ (next, false)
      → Visits shape next seen
      → Visits shape idx (idx ∷ seen)

module _ (i n : ℕ) (ns : List ℕ) where
  advance-inner :
      (idx : List ℕ) {next : List ℕ}
      → advance idx ns ≡ (next, false)
      → advance (i ∷ idx) (n ∷ ns) ≡ (i ∷ next, false)
  unfolding advance
  advance-inner idx e = rw e

  advance-carry :
      (idx : List ℕ) {next : List ℕ}
      → advance idx ns ≡ (next, true)
      → i + 1 < n
      → advance (i ∷ idx) (n ∷ ns) ≡ ((i + 1) ∷ next, false)
  unfolding advance
  advance-carry idx e h = rw (e, lt→ltb (i + 1) n h)

  advance-wrap :
      (idx : List ℕ) {next : List ℕ}
      → advance idx ns ≡ (next, true)
      → n ≡ i + 1
      → advance (i ∷ idx) (n ∷ ns) ≡ (0 ∷ next, true)
  unfolding advance
  advance-wrap idx e h = let le : n ≤ i + 1 = omega arith in rw (e, le→ltb (i + 1) n le)

  -- The last value of the first axis.
  Visits-final :
      {idx : List ℕ} {seen : List (List ℕ)}
      → n ≡ i + 1
      → Visits ns idx seen
      → Visits (n ∷ ns) (i ∷ idx) (map (λ r. i ∷ r) seen)
  Visits-final h (last e) = last (advance-wrap _ e h)
  Visits-final h (more e v) = more (advance-inner _ e) (Visits-final h v)

  -- Any other value of the first axis, and what follows it.
  Visits-then :
      {idx : List ℕ} {seen later : List (List ℕ)}
      → i + 1 < n
      → Visits (n ∷ ns) ((i + 1) ∷ zeros ns) later
      → Visits ns idx seen
      → Visits (n ∷ ns) (i ∷ idx) (map (λ r. i ∷ r) seen ++ later)
  Visits-then h w (last e) = more (advance-carry _ e h) w
  Visits-then h w (more e v) = more (advance-inner _ e) (Visits-then h w v)

Visits-blocks :
    (k i n : ℕ) (ns : List ℕ)
    → i + suc k ≡ n
    → Visits ns (zeros ns) (indices ns)
    → Visits (n ∷ ns) (i ∷ zeros ns) (blocks i (suc k) (indices ns))
Visits-blocks zero i n ns h v = rw append-nil (Visits-final i n ns (omega arith) v)
Visits-blocks (suc k) i n ns h v =
    Visits-then i n ns (omega arith) (Visits-blocks k (i + 1) n ns (omega arith) v) v

-- Where no extent is 0, the index runs through the multi-indices from the zero index.
pub Visits-indices : (ns : List ℕ) → product ns ≢ 0 → Visits ns (zeros ns) (indices ns)
Visits-indices [] h = last {idx = []} (unfold advance in refl)
Visits-indices (zero ∷ ns) h = absurd (h (omega arith))
Visits-indices (suc n ∷ ns) h =
    Visits-blocks n 0 (suc n) ns (omega arith) (Visits-indices ns (λ e. h (grind arith)))
