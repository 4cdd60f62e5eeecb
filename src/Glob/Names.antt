-- ===== src/Glob/Names.antt =====
-- The segments of a path: its pieces between separators, the empty ones left out.
use rustytree.Prelude.{
  codes, ℕ, zero, suc, ◌≡◌, refl, ◌∙◌, sym, ap, inl, inr, List, [], ◌∷◌, ◌++◌, Bool, not, ◌==◌,
  ==_iff, Bool-cases, replicate, keep, Text, split, trim_start, trim_end, append-nil,
}
use rustytree.Glob.{slash, is_empty, names}

keep-append {ℓ} :
    {A : Type ℓ} (test : A → Bool) (xs ys : List A)
    → keep test (xs ++ ys) ≡ keep test xs ++ keep test ys
keep-append test [] ys = refl
keep-append test (x ∷ xs) ys = elim (Bool-cases (test x)) [
  | inl t ↦ rw t (ap (λ r. x ∷ r) (keep-append test xs ys))
  | inr f ↦ rw f (keep-append test xs ys)
]

split-append :
    (c : ℕ) (s t : Text)
    → split c (s ++ c ∷ t) ≡ ((split c s).0, (split c s).1 ++ (split c t).0 ∷ (split c t).1)
unfolding split
split-append c [] t = rw ((==_iff c c).1 refl)
split-append c (b ∷ s) t = elim (Bool-cases (b == c)) [
  | inl e ↦ rw (e, split-append c s t)
  | inr e ↦ rw (e, split-append c s t)
]

-- The segments of a path and of what follows a separator stand one after the other.
pub names-append : (s t : Text) → names (s ++ slash ∷ t) ≡ names s ++ names t
unfolding names
names-append s t = rw (split-append slash s t) (
    keep-append (λ x. not (is_empty x)) ((split slash s).0 ∷ (split slash s).1)
      ((split slash t).0 ∷ (split slash t).1))

names-nil : names [] ≡ []
unfolding names split
names-nil = refl

pub names-slash : names (codes "/") ≡ names []
unfolding names split
names-slash = refl

pub names-trim_start : (s : Text) → names (trim_start slash s) ≡ names s
unfolding trim_start
names-trim_start [] = refl
names-trim_start (b ∷ s) = elim (Bool-cases (b == slash)) [
  | inl e ↦
      rw (e, names-trim_start s, (==_iff b slash).0 e)
        (sym (names-append [] s ∙ ap (λ r. r ++ names s) names-nil))
  | inr e ↦ rw e
]

names-append-slashes : (k : ℕ) (s : Text) → names (s ++ replicate k slash) ≡ names s
names-append-slashes zero s = rw append-nil
names-append-slashes (suc k) s =
    names-append s (replicate k slash)
    ∙ (ap (λ r. names s ++ r) (names-append-slashes k [] ∙ names-nil) ∙ append-nil (names s))

trim_end_step :
    (c b : ℕ) (s t : Text)
    → trim_end c s ≡ t
    → (k : ℕ) × (s ≡ t ++ replicate k c)
    → (k : ℕ) × (b ∷ s ≡ trim_end c (b ∷ s) ++ replicate k c)
unfolding trim_end
trim_end_step c b s [] e (k, shape) = elim (Bool-cases (b == c)) [
  | inl h ↦ (suc k, rw (e, h, (==_iff b c).0 h) (ap (λ r. c ∷ r) shape))
  | inr h ↦ (k, rw (e, h) (ap (λ r. b ∷ r) shape))
]
trim_end_step c b s (d ∷ t) e (k, shape) = (k, rw e (ap (λ r. b ∷ r) shape))

-- Only separators are trimmed.
trim_end_shape : (c : ℕ) (s : Text) → (k : ℕ) × (s ≡ trim_end c s ++ replicate k c)
trim_end_shape c [] = unfold trim_end in (0, refl)
trim_end_shape c (b ∷ s) = trim_end_step c b s (trim_end c s) refl (trim_end_shape c s)

pub names-trim_end : (s : Text) → names (trim_end slash s) ≡ names s
names-trim_end s =
    let (k, shape) = trim_end_shape slash s in
    sym (ap names shape ∙ names-append-slashes k (trim_end slash s))
