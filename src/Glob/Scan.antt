-- ===== src/Glob/Scan.antt =====
-- The loop over the middle pieces, which takes each at its first place.
use rustytree.Prelude.{
  ℕ, zero, suc, ◌+◌, ◌-◌, ◌≤◌, ◌≡◌, refl, ◌∙◌, ap, ◌↔◌, inl, inr, List, [], ◌∷◌, ◌++◌, arith, true,
  le→ltb, Option-cases, some, length, take, drop, drop-drop, length-append, Text, find, find_sound,
  find_first, append_assoc, length-take, length-drop, find-end-le,
}
use mathlib.Core.Bool.{false≢true}
use rustytree.Glob.{find_middle}
use rustytree.Glob.Pieces.{Middle}

-- What follows the first place of `p` ends with what follows any other.
Middle-extend : (ps : List Text) (h s : Text) → Middle ps s → Middle ps (h ++ s)
Middle-extend [] h s m = tt
Middle-extend (p ∷ ps) h s (gap, r, e, m) = (h ++ gap, r, rw e (simp append_assoc), m)

drop-ends : (i : ℕ) (g s : Text) → i ≤ length g → (h : Text) × (drop i (g ++ s) ≡ h ++ s)
drop-ends zero g s le = (g, refl)
drop-ends (suc i) [] s le = absurd (omega arith)
drop-ends (suc i) (c ∷ g) s le = drop-ends i g s (omega arith)

-- If the pieces stand in the text, the first place of the first one leaves room for the others.
Middle-next :
    (p : Text) (ps : List Text) (s : Text)
    → Middle (p ∷ ps) s
    → (i : ℕ) × (find p s ≡ some i) × Middle ps (drop (i + length p) s)
Middle-next p ps s (gap, r, e, m) =
    let (i, found, le) = find_first p gap r in
    let fits : i + length p ≤ length (gap ++ p) = omega (arith, length-append gap p) in
    let (h, tail) = drop-ends (i + length p) (gap ++ p) r fits in
    (i, rw e found, rw (e, ← append_assoc gap p r, tail) (Middle-extend ps h r m))

pub find_middle_iff :
    (ps : List Text) (cursor stop : ℕ) (name : Text)
    → cursor ≤ stop
    → stop ≤ length name
    → (find_middle ps cursor stop name ≡ true) ↔ Middle ps (drop cursor (take stop name))
unfolding find_middle
find_middle_iff [] cursor stop name h k = (λ _. tt, λ _. refl)
find_middle_iff (p ∷ ps) cursor stop name h k = elim (Option-cases (find p window)) [
  | inl e ↦
      rw (le→ltb stop cursor h, e)
        (λ t. absurd (false≢true t), λ m. let (i, found, _) = Middle-next p ps window m in cc)
  | inr (i, e) ↦
      let end : i + length p ≤ length window = find-end-le p window i e in
      let size : length window ≡ stop - cursor =
        length-drop cursor (take stop name)
        ∙ ap (λ (n : ℕ). n - cursor) (length-take stop name k) in
      let (to, from) = find_middle_iff ps (cursor + (i + length p)) stop name (omega arith) k in
      rw (le→ltb stop cursor h, e)
        (
          λ t. (
            take i window,
            _,
            find_sound p window i e,
            rw (drop-drop cursor (i + length p) _) (to t),
          ),
          λ m.
              let (j, found, rest) = Middle-next p ps window m in
              let same : i ≡ j = cc (found, e) in
              from (rw (same, ← drop-drop cursor (j + length p) (take stop name)) rest),
        )
]
  where
    window : Text
    window = drop cursor (take stop name)
