-- ===== src/Array/Slice/Indices.antt =====
-- The multi-indices of a shape in row-major order, and where each stands in a flat buffer.
use rustytree.Prelude.{
  ℕ, zero, suc, ◌+◌, ◌*◌, ◌<◌, ◌≡◌, refl, ◌∙◌, ap, List, [], ◌∷◌, ◌++◌, arith, some, map, length,
  get_elem?, length-append, length-map, get_elem?-append_left, get_elem?-append_right,
  get_elem?-map, All, All-append, All-map, All-imp, ◌≤◌,
}
use native.Mathlib.Nat.{mul_comm}
use rustytree.Array.Slice.{product, row_major_strides}

-- `n` copies of the block `rest`, with `start`, `start + 1`, … in front.
abbrev pub blocks : ℕ → ℕ → List (List ℕ) → List (List ℕ)
blocks start zero rest = []
blocks start (suc n) rest = map (λ idx. start ∷ idx) rest ++ blocks (start + 1) n rest

abbrev pub indices : List ℕ → List (List ℕ)
indices [] = [] ∷ []
indices (n ∷ ns) = blocks 0 n (indices ns)

-- Each component lies below the extent of its axis.
abbrev pub Within : List ℕ → List ℕ → Type 0
Within [] [] = Unit
Within (i ∷ idx) (n ∷ ns) = (i < n) × Within idx ns
Within _ _ = ⊥

-- A buffer that holds `value` at every multi-index of a shape, in row-major order.
abbrev pub row_major {ℓ} : {A : Type ℓ} → (List ℕ → A) → List ℕ → List A
row_major value shape = map value (indices shape)

length-blocks :
    (start n : ℕ) (rest : List (List ℕ)) → length (blocks start n rest) ≡ n * length rest
length-blocks start zero rest = omega arith
length-blocks start (suc n) rest =
    let own = length-map (λ idx. start ∷ idx) rest in
    let all = length-append (map (λ idx. start ∷ idx) rest) (blocks (start + 1) n rest) in
    grind (arith, own, all, length-blocks (start + 1) n rest)

pub length-indices : (ns : List ℕ) → length (indices ns) ≡ product ns
length-indices [] = refl
length-indices (n ∷ ns) = length-blocks 0 n (indices ns) ∙ ap (λ (k : ℕ). n * k) (length-indices ns)

-- The place of a multi-index in a row-major buffer.
abbrev pub position : List ℕ → List ℕ → ℕ
position (i ∷ idx) (n ∷ ns) = i * product ns + position idx ns
position _ _ = 0

pub position-lt : (idx ns : List ℕ) → Within idx ns → position idx ns < product ns
position-lt [] [] h = omega arith
position-lt [] (n ∷ ns) h = absurd h
position-lt (i ∷ idx) [] h = absurd h
position-lt (i ∷ idx) (n ∷ ns) h = grind (arith, position-lt idx ns h.1)

get_elem?-blocks :
    (i start n j : ℕ) (rest : List (List ℕ)) (r : List ℕ)
    → i < n
    → j < length rest
    → get_elem? rest j ≡ some r
    → get_elem? (blocks start n rest) (i * length rest + j) ≡ some ((start + i) ∷ r)
get_elem?-blocks i start zero j rest r h k e = absurd (omega arith)
get_elem?-blocks zero start (suc n) j rest r h k e =
    let here : 0 * length rest + j ≡ j = omega arith in
    let own = length-map (λ idx. start ∷ idx) rest in
    let same : start + 0 ≡ start = omega arith in
    rw (
      here,
      same,
      get_elem?-append_left (map (λ idx. start ∷ idx) rest) _ j (omega arith),
      get_elem?-map (λ idx. start ∷ idx) rest j,
      e,
    )
get_elem?-blocks (suc i) start (suc n) j rest r h k e =
    let own = length-map (λ idx. start ∷ idx) rest in
    let there : suc i * length rest + j
        ≡ length (map (λ idx. start ∷ idx) rest) + (i * length rest + j) =
      grind (arith, own) in
    let next : start + suc i ≡ start + 1 + i = omega arith in
    rw (there, next, get_elem?-append_right (map (λ idx. start ∷ idx) rest) _ (i * length rest + j))
      (get_elem?-blocks i (start + 1) n j rest r (omega arith) k e)

get_elem?-indices :
    (idx ns : List ℕ) → Within idx ns → get_elem? (indices ns) (position idx ns) ≡ some idx
get_elem?-indices [] [] h = refl
get_elem?-indices [] (n ∷ ns) h = absurd h
get_elem?-indices (i ∷ idx) [] h = absurd h
get_elem?-indices (i ∷ idx) (n ∷ ns) h =
    let size = length-indices ns in
    let same : 0 + i ≡ i = omega arith in
    let inner : position idx ns < length (indices ns) = rw size (position-lt idx ns h.1) in
    let found =
      get_elem?-blocks i 0 n (position idx ns) (indices ns) idx h.0 inner
        (get_elem?-indices idx ns h.1) in
    rw (← size) (rw same at found)

-- The buffer holds the value of a multi-index at its place.
pub get_elem?-row_major {ℓ} :
    {A : Type ℓ} (value : List ℕ → A) (idx ns : List ℕ)
    → Within idx ns
    → get_elem? (row_major value ns) (position idx ns) ≡ some (value idx)
get_elem?-row_major value idx ns h =
    rw (get_elem?-map value (indices ns) (position idx ns), get_elem?-indices idx ns h)

-- The stride of the first axis is the product of the extents behind it.
pub row_major_strides_lem :
    (m : ℕ) (ns : List ℕ) → row_major_strides (m ∷ ns) ≡ product ns ∷ row_major_strides ns
unfolding row_major_strides
row_major_strides_lem m [] = refl
row_major_strides_lem m (n ∷ ns) =
    let e : product ns * n ≡ n * product ns = mul_comm (product ns) n in
    rw (row_major_strides_lem n ns, e)

Within-blocks :
    (start k total : ℕ) (ns : List ℕ) (rest : List (List ℕ))
    → start + k ≤ total
    → All (λ idx. Within idx ns) rest
    → All (λ idx. Within idx (total ∷ ns)) (blocks start k rest)
Within-blocks start zero total ns rest h w = tt
Within-blocks start (suc k) total ns rest h w =
    All-append (λ idx. Within idx (total ∷ ns)) (map (λ idx. start ∷ idx) rest)
      (blocks (start + 1) k rest)
      (All-map (λ idx. Within idx (total ∷ ns)) (λ idx. start ∷ idx) rest
        (All-imp (λ idx. Within idx ns) (λ idx. (start < total) × Within idx ns)
          (λ idx inner. (omega arith, inner)) rest w))
      (Within-blocks (start + 1) k total ns rest (omega arith) w)

-- Every multi-index of a shape lies in it.
pub indices-Within : (ns : List ℕ) → All (λ idx. Within idx ns) (indices ns)
indices-Within [] = (tt, tt)
indices-Within (n ∷ ns) = Within-blocks 0 n n ns (indices ns) (omega arith) (indices-Within ns)
