-- ===== src/Prelude/StrLaws.antt =====
-- What the tests and searches on texts find.
use Prim.Native.Nat.{ℕ, suc, ◌+◌, ◌-◌, ◌≤◌}
use mathlib.Core.Path.{◌≡◌, refl, ap, ap₂, sym, ◌∙◌}
use mathlib.Core.Logic.{◌↔◌, ◌⊎◌, ◌≢◌, inl, inr}
use mathlib.Core.Bool.{true, false, false≢true}
use mathlib.Core.List.{[], ◌∷◌, ◌++◌}
use mathlib.Core.Option
use mathlib.Core.Option.{Option, none, some}
use native.Mathlib.Omega.{arith}
use rustytree.Prelude.Tests.{◌==◌, ==_iff, &&_iff, ltb, Bool-cases, le→ltb}
use rustytree.Prelude.Lists.{length, take, drop, length-append, take-append-drop, drop-length}
use rustytree.Prelude.Str.{Text, text_eq, starts_with, ends_with, find}

pub text_eq_sound : (s t : Text) → text_eq s t ≡ true → s ≡ t
unfolding text_eq
text_eq_sound [] [] h = refl
text_eq_sound [] (b ∷ t) h = cc
text_eq_sound (a ∷ s) [] h = cc
text_eq_sound (a ∷ s) (b ∷ t) h =
    let (here, rest) = (&&_iff (a == b) (text_eq s t)).0 h in
    ap₂ ◌∷◌ ((==_iff a b).0 here) (text_eq_sound s t rest)

pub text_eq_refl : (s : Text) → text_eq s s ≡ true
unfolding text_eq
text_eq_refl [] = refl
text_eq_refl (a ∷ s) = (&&_iff (a == a) (text_eq s s)).1 ((==_iff a a).1 refl, text_eq_refl s)

-- Two texts are equal or differ, as the comparison says.
pub text_cases : (s t : Text) → ((s ≡ t) × (text_eq s t ≡ true)) ⊎ ((s ≢ t) × (text_eq s t ≡ false))
text_cases s t = elim (Bool-cases (text_eq s t)) [
  | inl e ↦ inl (text_eq_sound s t e, e)
  | inr f ↦ inr (λ p. differ (sym (text_eq_refl s) ∙ (ap (text_eq s) p ∙ f)), f)
]
  where
    differ : true ≡ false → ⊥
    differ e = cc

pub text_eq_iff : (s t : Text) → (text_eq s t ≡ true) ↔ (s ≡ t)
text_eq_iff s t = (text_eq_sound s t, λ e. rw e (text_eq_refl t))

pub starts_with_sound : (p s : Text) → starts_with p s ≡ true → s ≡ p ++ drop (length p) s
unfolding starts_with
starts_with_sound [] s h = refl
starts_with_sound (a ∷ p) [] h = cc
starts_with_sound (a ∷ p) (b ∷ s) h =
    let (here, rest) = (&&_iff (a == b) (starts_with p s)).0 h in
    ap₂ ◌∷◌ (sym ((==_iff a b).0 here)) (starts_with_sound p s rest)

pub starts_with-append : (p s : Text) → starts_with p (p ++ s) ≡ true
unfolding starts_with
starts_with-append [] s = refl
starts_with-append (a ∷ p) s =
    (&&_iff (a == a) (starts_with p (p ++ s))).1 ((==_iff a a).1 refl, starts_with-append p s)

pub ends_with_sound : (p s : Text) → ends_with p s ≡ true → s ≡ take (length s - length p) s ++ p
unfolding ends_with
ends_with_sound p s h = elim (Bool-cases (ltb (length s) (length p))) [
  | inl short ↦ absurd (false≢true (rw short at h))
  | inr long ↦
      let e : text_eq (drop (length s - length p) s) p ≡ true = rw long at h in
      sym (take-append-drop (length s - length p) s)
      ∙ ap (λ t. take (length s - length p) s ++ t) (text_eq_sound _ _ e)
]

pub ends_with-append : (p s : Text) → ends_with p (s ++ p) ≡ true
unfolding ends_with
ends_with-append p s =
    let e : length (s ++ p) ≡ length s + length p = length-append s p in
    let k : length (s ++ p) - length p ≡ length s = omega arith in
    let long : length p ≤ length (s ++ p) = omega arith in
    rw (le→ltb _ _ long, k, drop-length s p) (text_eq_refl p)

find-here : (p s : Text) → starts_with p s ≡ true → find p s ≡ some 0
unfolding find
find-here p [] h = rw h
find-here p (c ∷ s) h = rw h

find-next :
    (p : Text) (c : ℕ) (s : Text)
    → starts_with p (c ∷ s) ≡ false
    → find p (c ∷ s) ≡ Option.map suc (find p s)
unfolding find
find-next p c s h = rw h

find-nil : (p : Text) → starts_with p [] ≡ false → find p [] ≡ none
unfolding find
find-nil p h = rw h

-- `p` stands in `s` at the place `i`.
abbrev Stands : Text → Text → ℕ → Type 0
Stands p s i = s ≡ take i s ++ (p ++ drop (i + length p) s)

Stands-zero : (p s : Text) → starts_with p s ≡ true → Stands p s 0
Stands-zero p s h = let e : 0 + length p ≡ length p = omega arith in rw e (starts_with_sound p s h)

Stands-suc : (p : Text) (c : ℕ) (s : Text) (i : ℕ) → Stands p s i → Stands p (c ∷ s) (suc i)
Stands-suc p c s i h =
    let e : suc i + length p ≡ suc (i + length p) = omega arith in rw e (ap (λ t. c ∷ t) h)

map-suc_inv :
    (o : Option ℕ) (i : ℕ) → Option.map suc o ≡ some i → (j : ℕ) × (o ≡ some j) × (i ≡ suc j)
map-suc_inv none i h = cc
map-suc_inv (some j) i h = (j, refl, cc)

-- A place that `find` returns holds the text.
pub find_sound :
    (p s : Text) (i : ℕ) → find p s ≡ some i → s ≡ take i s ++ (p ++ drop (i + length p) s)
find_sound p [] i h = elim (Bool-cases (starts_with p [])) [
  | inl t ↦ let e : 0 ≡ i = cc (find-here p [] t) in rw (← e) (Stands-zero p [] t)
  | inr f ↦ cc (find-nil p f)
]
find_sound p (c ∷ s) i h = elim (Bool-cases (starts_with p (c ∷ s))) [
  | inl t ↦ let e : 0 ≡ i = cc (find-here p (c ∷ s) t) in rw (← e) (Stands-zero p (c ∷ s) t)
  | inr f ↦
      let (j, found, e) = map-suc_inv (find p s) i (sym (find-next p c s f) ∙ h) in
      rw e (Stands-suc p c s j (find_sound p s j found))
]

-- `find` returns the first place, so none after a place where the text stands.
pub find_first : (p g r : Text) → (i : ℕ) × (find p (g ++ (p ++ r)) ≡ some i) × (i ≤ length g)
find_first p [] r = (0, find-here p (p ++ r) (starts_with-append p r), omega arith)
find_first p (c ∷ g) r = elim (Bool-cases (starts_with p (c ∷ (g ++ (p ++ r))))) [
  | inl t ↦ (0, find-here p _ t, omega arith)
  | inr f ↦
      let (i, e, le) = find_first p g r in
      (suc i, find-next p c _ f ∙ ap (Option.map suc) e, omega arith)
]

starts_with-le : (p s : Text) → starts_with p s ≡ true → length p ≤ length s
starts_with-le p s h =
    let e = ap length (starts_with_sound p s h) in
    omega (arith, e, length-append p (drop (length p) s))

-- The text that is found ends inside the text that is searched.
pub find-end-le : (p s : Text) (i : ℕ) → find p s ≡ some i → i + length p ≤ length s
find-end-le p [] i h = elim (Bool-cases (starts_with p [])) [
  | inl t ↦
      let e : 0 ≡ i = cc (find-here p [] t) in
      let le : length p ≤ 0 = starts_with-le p [] t in omega arith
  | inr f ↦ cc (find-nil p f)
]
find-end-le p (c ∷ s) i h = elim (Bool-cases (starts_with p (c ∷ s))) [
  | inl t ↦ let e : 0 ≡ i = cc (find-here p (c ∷ s) t) in omega (arith, starts_with-le p (c ∷ s) t)
  | inr f ↦
      let (j, found, e) = map-suc_inv (find p s) i (sym (find-next p c s f) ∙ h) in
      omega (arith, find-end-le p s j found)
]
