-- ===== src/Prelude/Bytes.antt =====
-- Searching for one byte and trimming it.
use Prim.Native.Nat.{ℕ, suc, ◌+◌}
use mathlib.Core.Path.{◌≡◌, refl, ap, sym, ◌∙◌}
use mathlib.Core.Logic.{◌≢◌, inl, inr}
use mathlib.Core.Bool.{false}
use mathlib.Core.List.{[], ◌∷◌, ◌++◌}
use mathlib.Core.Option
use mathlib.Core.Option.{Option, none, some}
use native.Mathlib.Decide.{ℕ_discrete}
use native.Mathlib.Omega.{arith}
use rustytree.Prelude.Tests.{◌==◌, ==_iff, Bool-cases, Option-cases, if◌then◌else◌}
use rustytree.Prelude.Str.{Text, find, starts_with, split_once, trim_start, trim_end}

-- The byte `c` does not occur in the text.
abbrev pub NoByte : ℕ → Text → Type 0
NoByte c [] = Unit
NoByte c (b ∷ s) = (b ≢ c) × NoByte c s

abbrev pub NotFirst : ℕ → Text → Type 0
NotFirst c [] = Unit
NotFirst c (b ∷ s) = b ≢ c

abbrev pub NotLast : ℕ → Text → Type 0
NotLast c [] = Unit
NotLast c (b ∷ []) = b ≢ c
NotLast c (b ∷ d ∷ s) = NotLast c (d ∷ s)

-- One step of the search for a byte.
split_once-here : (c x : ℕ) (s : Text) → x ≡ c → split_once (c ∷ []) (x ∷ s) ≡ some ([], s)
unfolding split_once find starts_with
split_once-here c x s e = rw ((==_iff c x).1 (sym e)) refl

abbrev before : ℕ → Text × Text → Text × Text
before x (b, p) = (x ∷ b, p)

split_once-later :
    (c x : ℕ) (s : Text)
    → x ≢ c
    → split_once (c ∷ []) (x ∷ s) ≡ Option.map (before x) (split_once (c ∷ []) s)
unfolding split_once find starts_with
split_once-later c x s ne =
    let test : (c == x) ≡ false = ground arith in
    elim (Option-cases (find (c ∷ []) s)) [
      | inl e ↦ rw (test, e) refl
      | inr (i, e) ↦ let k : suc i + 1 ≡ suc (i + 1) = omega arith in rw (test, e, k) refl
    ]

pub split_once-join :
    (c : ℕ) (b p : Text) → NoByte c b → split_once (c ∷ []) (b ++ c ∷ p) ≡ some (b, p)
split_once-join c [] p h = split_once-here c c p refl
split_once-join c (x ∷ b) p h =
    split_once-later c x (b ++ c ∷ p) h.0 ∙ ap (Option.map (before x)) (split_once-join c b p h.1)

pub split_once-none : (c : ℕ) (s : Text) → NoByte c s → split_once (c ∷ []) s ≡ none
split_once-none c [] h = unfold split_once find starts_with in refl
split_once-none c (x ∷ s) h =
    split_once-later c x s h.0 ∙ ap (Option.map (before x)) (split_once-none c s h.1)

-- What `split_once` finds before the byte does not hold it.
abbrev pub FirstLacks : ℕ → Option (Text × Text) → Text → Type 0
FirstLacks c none s = NoByte c s
FirstLacks c (some (b, p)) s = NoByte c b

FirstLacks-before :
    (c x : ℕ) (s : Text) (o : Option (Text × Text))
    → x ≢ c
    → FirstLacks c o s
    → FirstLacks c (Option.map (before x) o) (x ∷ s)
FirstLacks-before c x s none ne h = (ne, h)
FirstLacks-before c x s (some _) ne h = (ne, h)

pub split_once-FirstLacks : (c : ℕ) (s : Text) → FirstLacks c (split_once (c ∷ []) s) s
split_once-FirstLacks c [] = unfold split_once find starts_with in tt
split_once-FirstLacks c (x ∷ s) = elim (ℕ_discrete x c) [
  | yes e ↦ rw (split_once-here c x s e) tt
  | no ne ↦
      rw (split_once-later c x s ne)
        (FirstLacks-before c x s (split_once (c ∷ []) s) ne (split_once-FirstLacks c s))
]

pub trim_start-NotFirst : (c : ℕ) (s : Text) → NotFirst c (trim_start c s)
unfolding trim_start
trim_start-NotFirst c [] = tt
trim_start-NotFirst c (b ∷ s) = elim (Bool-cases (b == c)) [
  | inl e ↦ rw e (trim_start-NotFirst c s)
  | inr e ↦ rw e (ground arith)
]

pub trim_start_id : (c : ℕ) (s : Text) → NotFirst c s → trim_start c s ≡ s
unfolding trim_start
trim_start_id c [] h = refl
trim_start_id c (b ∷ s) h = ground arith

abbrev pub trim_end_tail : ℕ → ℕ → Text → Text
trim_end_tail c b t = elim t [ [] ↦ if b == c then [] else b ∷ [] | d ∷ t ↦ b ∷ d ∷ t ]

not_last : (c b : ℕ) (t : Text) → NotLast c t → NotLast c (trim_end_tail c b t)
not_last c b [] h = elim (Bool-cases (b == c)) [ inl e ↦ rw e tt | inr e ↦ rw e (ground arith) ]
not_last c b (d ∷ t) h = h

not_first : (c b : ℕ) (t : Text) → b ≢ c → NotFirst c (trim_end_tail c b t)
not_first c b [] h = elim (Bool-cases (b == c)) [ inl e ↦ rw e tt | inr e ↦ rw e (ground arith) ]
not_first c b (d ∷ t) h = h

pub trim_end-NotLast : (c : ℕ) (s : Text) → NotLast c (trim_end c s)
unfolding trim_end
trim_end-NotLast c [] = tt
trim_end-NotLast c (b ∷ s) = not_last c b (trim_end c s) (trim_end-NotLast c s)

pub trim_end-NotFirst : (c : ℕ) (s : Text) → NotFirst c s → NotFirst c (trim_end c s)
unfolding trim_end
trim_end-NotFirst c [] h = tt
trim_end-NotFirst c (b ∷ s) h = not_first c b (trim_end c s) h

pub trim_end_id : (c : ℕ) (s : Text) → NotLast c s → trim_end c s ≡ s
unfolding trim_end
trim_end_id c [] h = refl
trim_end_id c (b ∷ []) h = ground arith
trim_end_id c (b ∷ d ∷ s) h = rw (trim_end_id c (d ∷ s) h)
