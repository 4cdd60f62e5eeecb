-- ===== src/Walk/Paths/Laws.antt =====
-- Paths of children, and trailing separators.
use rustytree.Prelude.{
  ℕ, zero, suc, ◌≡◌, ◌≢◌, refl, ◌∙◌, ap, sym, inl, inr, Bool-cases, Bool, true, false,
  if◌then◌else◌, ltb, ◌==◌, ◌&&◌, Option, none, some, [], ◌∷◌, ◌++◌, length, replicate, arith, Text,
  codes, text_eq, text_eq_sound, ends_with-append, ends_with, NoByte, NotLast, trim_end,
  trim_end_tail, append-nil, append_assoc, length-append, lt→ltb, &&_iff, rsplit_once, ==_iff,
}
use rustytree.Walk.Paths.{slash, normalize_path, parent_of, array_name}

abbrev rsplit_step : ℕ → ℕ → Text → Option (Text × Text) → Option (Text × Text)
rsplit_step c b s (some (before, after)) = some (b ∷ before, after)
rsplit_step c b s none = if b == c then some ([], s) else none

rsplit_once-cons :
    (c b : ℕ) (s : Text) → rsplit_once c (b ∷ s) ≡ rsplit_step c b s (rsplit_once c s)
unfolding rsplit_once
rsplit_once-cons c b s = by_rest (rsplit_once c s)
  where
    by_rest :
        (o : Option (Text × Text))
        → elim o [
          | some (before, after) ↦ some (b ∷ before, after)
          | none ↦ if b == c then some ([], s) else none
        ]
          ≡ rsplit_step c b s o
    by_rest none = refl
    by_rest (some _) = refl

rsplit_once-none : (c : ℕ) (s : Text) → NoByte c s → rsplit_once c s ≡ none
rsplit_once-none c [] h = unfold rsplit_once in refl
rsplit_once-none c (b ∷ s) (d, h) =
    let test : (b == c) ≡ false = ground arith in
    rsplit_once-cons c b s ∙ (ap (rsplit_step c b s) (rsplit_once-none c s h) ∙ rw test refl)

rsplit_once-join : (c : ℕ) (b p : Text) → NoByte c p → rsplit_once c (b ++ c ∷ p) ≡ some (b, p)
rsplit_once-join c [] p h =
    let test : (c == c) ≡ true = (==_iff c c).1 refl in
    rsplit_once-cons c c p ∙ (ap (rsplit_step c c p) (rsplit_once-none c p h) ∙ rw test refl)
rsplit_once-join c (x ∷ b) p h =
    rsplit_once-cons c x (b ++ c ∷ p) ∙ ap (rsplit_step c x (b ++ c ∷ p)) (rsplit_once-join c b p h)

-- The path of the child `name` of a group.
unfoldable pub child_path : Text → Text → Text
child_path parent name = if text_eq parent (codes "/") then slash ∷ name else parent ++ slash ∷ name

-- For every group path that is not empty and every name with no separator in it: the parent of the
-- child's path is the group, and the name in the child's path is the name.
pub parent_of-child_path :
    (parent name : Text)
    → parent ≢ []
    → NoByte slash name
    → (parent_of (child_path parent name) ≡ parent) × (array_name (child_path parent name) ≡ name)
unfolding child_path parent_of array_name
parent_of-child_path [] name ne h = absurd (ne refl)
parent_of-child_path (c ∷ parent) name ne h = elim (Bool-cases (text_eq (c ∷ parent) (codes "/"))) [
  | inl e ↦
      rw (e, rsplit_once-join slash [] name h)
        (sym (text_eq_sound (c ∷ parent) (codes "/") e), refl)
  | inr e ↦ rw (e, rsplit_once-join slash (c ∷ parent) name h) (refl, refl)
]

trim_end-replicate : (c : ℕ) (s : Text) (n : ℕ) → NotLast c s → trim_end c (s ++ replicate n c) ≡ s
unfolding trim_end
trim_end-replicate c [] zero h = refl
trim_end-replicate c [] (suc n) h =
    let test : (c == c) ≡ true = (==_iff c c).1 refl in
    ap (trim_end_tail c c) (trim_end-replicate c [] n tt) ∙ rw test refl
trim_end-replicate c (b ∷ []) n h =
    let test : (b == c) ≡ false = ground arith in
    ap (trim_end_tail c b) (trim_end-replicate c [] n tt) ∙ rw test refl
trim_end-replicate c (b ∷ d ∷ s) n h = ap (trim_end_tail c b) (trim_end-replicate c (d ∷ s) n h)

either_branch : (b : Bool) (x y z : Text) → x ≡ z → y ≡ z → (if b then x else y) ≡ z
either_branch true x y z e f = e
either_branch false x y z e f = f

replicate-suc : (n c : ℕ) → replicate (suc n) c ≡ replicate n c ++ c ∷ []
replicate-suc zero c = refl
replicate-suc (suc n) c = ap (◌∷◌ c) (replicate-suc n c)

-- A path with a trailing separator that is longer than the separator ends with it.
trailing_test :
    (c d : ℕ) (path : Text) (n : ℕ)
    → (ltb 1 (length ((c ∷ path) ++ replicate (suc n) d))
        && ends_with (d ∷ []) ((c ∷ path) ++ replicate (suc n) d))
      ≡ true
trailing_test c d path n =
    let e =
      ap (λ r. (c ∷ path) ++ r) (replicate-suc n d)
      ∙ sym (append_assoc (c ∷ path) (replicate n d) (d ∷ [])) in
    let ends : ends_with (d ∷ []) ((c ∷ path) ++ replicate (suc n) d) ≡ true =
      ap (ends_with (d ∷ [])) e ∙ ends_with-append (d ∷ []) ((c ∷ path) ++ replicate n d) in
    (&&_iff _ _).1 (lt→ltb 1 _ (rw (length-append path (replicate (suc n) d)) (omega arith)), ends)

-- For every path that is not empty and does not end with a separator: the path followed by any
-- number of separators normalizes to the path itself, so that the two shapes compare equal.
pub normalize_path-replicate :
    (path : Text) (n : ℕ)
    → path ≢ []
    → NotLast slash path
    → normalize_path (path ++ replicate n slash) ≡ path
unfolding normalize_path
normalize_path-replicate [] n ne h = absurd (ne refl)
normalize_path-replicate (c ∷ path) zero ne h =
    either_branch _ _ _ _ (trim_end-replicate slash (c ∷ path) zero h) (append-nil (c ∷ path))
normalize_path-replicate (c ∷ path) (suc n) ne h =
    rw (trailing_test c slash path n) (trim_end-replicate slash (c ∷ path) (suc n) h)
