-- ===== src/Glob/Pieces.antt =====
-- Pattern segments, and the pieces that `split('*')` cuts them into.
use rustytree.Prelude.{
  ℕ, ◌≡◌, ◌≢◌, refl, ◌∙◌, inl, inr, ap, List, [], ◌∷◌, ◌++◌, arith, false, ◌==◌, ==_iff, Bool-cases,
  Text, split, append_assoc, append-nil,
}
use rustytree.Glob.{star, last_of, middle_of}
use rustytree.Glob.Spec.{Matches, empty, byte, leave, take_one}

-- The pieces stand in the text in this order, a gap before each, and the last one ends the text.
abbrev pub Rest : List Text → Text → Type 0
Rest [] s = s ≡ []
Rest (p ∷ ps) s = (gap : Text) × (r : Text) × (s ≡ gap ++ (p ++ r)) × Rest ps r

-- The first piece begins the text.
abbrev pub Fits : Text → List Text → Text → Type 0
Fits first rest s = (r : Text) × (s ≡ first ++ r) × Rest rest r

-- The pieces stand in the text in this order, and anything may follow.
abbrev pub Middle : List Text → Text → Type 0
Middle [] s = Unit
Middle (p ∷ ps) s = (gap : Text) × (r : Text) × (s ≡ gap ++ (p ++ r)) × Middle ps r

abbrev pub SplitFits : Text → Text → Type 0
SplitFits p s = let pieces = split star p in Fits pieces.0 pieces.1 s

split-separator :
    (c : ℕ) (p : Text) → c ≡ star → split star (c ∷ p) ≡ ([], (split star p).0 ∷ (split star p).1)
unfolding split
split-separator c p e = rw ((==_iff c star).1 e)

split-byte :
    (c : ℕ) (p : Text)
    → (c == star) ≡ false
    → split star (c ∷ p) ≡ (c ∷ (split star p).0, (split star p).1)
unfolding split
split-byte c p e = rw e

ne→test : (c : ℕ) → c ≢ star → (c == star) ≡ false
ne→test c ne = ground arith

pub Matches→Fits : {p s : Text} → Matches p s → SplitFits p s
Matches→Fits empty = unfold split in ([], refl, refl)
Matches→Fits (byte {c} {p} ne m) =
    let (r, here, rest) = Matches→Fits m in
    rw (split-byte c p (ne→test c ne)) (r, ap (λ t. c ∷ t) here, rest)
Matches→Fits (leave {c} {p} {s} e m) =
    let (r, here, rest) = Matches→Fits m in
    rw (split-separator c p e) (s, refl, ([], r, here, rest))
Matches→Fits (take_one {c} {b} {p} {s} e m) =
    rw (split-separator c p e) (longer (rw (split-separator c p e) at (Matches→Fits m)))
  where
    pieces : List Text
    pieces = (split star p).0 ∷ (split star p).1

    longer : Fits [] pieces s → Fits [] pieces (b ∷ s)
    longer (r, e', (gap, r', e'', more)) =
        (b ∷ s, refl, (b ∷ gap, r', ap (λ t. b ∷ t) (e' ∙ e''), more))

-- A star takes the gap in front of the next piece.
star_gap : (c : ℕ) (p gap s : Text) → c ≡ star → Matches p s → Matches (c ∷ p) (gap ++ s)
star_gap c p [] s e m = leave e m
star_gap c p (b ∷ gap) s e m = take_one e (star_gap c p gap s e m)

nil_only : (s : Text) → SplitFits [] s → s ≡ []
unfolding split
nil_only s (r, e, end) = e ∙ end

test→ne : (c : ℕ) → (c == star) ≡ false → c ≢ star
test→ne c t = ground arith

pub Fits→Matches : (p s : Text) → SplitFits p s → Matches p s
Fits→Matches [] s h = rw (nil_only s h) empty
Fits→Matches (c ∷ p) s h = elim (Bool-cases (c == star)) [
  | inl t ↦
      let e : c ≡ star = (==_iff c star).0 t in
      let (r, e₁, (gap, r', e₂, more)) = rw (split-separator c p e) at h in
      rw (e₁ ∙ e₂) (star_gap c p gap _ e (Fits→Matches p _ (r', refl, more)))
  | inr t ↦
      let (r, e, more) = rw (split-byte c p t) at h in
      rw e (byte (test→ne c t) (Fits→Matches p _ (r, refl, more)))
]

-- The last piece stands at the end, and those before it anywhere in what is left.
pub Rest→Middle :
    (p : Text) (ps : List Text) (s : Text)
    → Rest (p ∷ ps) s
    → (m : Text) × (s ≡ m ++ last_of p ps) × Middle (middle_of p ps) m
Rest→Middle p [] s (gap, r, e, end) = (gap, e ∙ rw end (rw append-nil), tt)
Rest→Middle p (q ∷ qs) s (gap, r, e, more) =
    let (m, e', inner) = Rest→Middle q qs r more in
    (gap ++ (p ++ m), rw (e, e') (simp append_assoc), (gap, m, refl, inner))

pub Middle→Rest :
    (p : Text) (ps : List Text) (m : Text)
    → Middle (middle_of p ps) m
    → Rest (p ∷ ps) (m ++ last_of p ps)
Middle→Rest p [] m h = (m, [], rw append-nil, refl)
Middle→Rest p (q ∷ qs) m (gap, r, e, inner) =
    (gap, r ++ last_of q qs, rw e (simp append_assoc), Middle→Rest q qs r inner)
