-- ===== src/Glob/Star.antt =====
-- `star_match` against the relation `Matches`.
use rustytree.Prelude.{
  ◌+◌, ◌-◌, ◌≤◌, ◌≡◌, refl, ◌∙◌, sym, ap, ◌↔◌, List, [], ◌∷◌, ◌++◌, arith, true, false, ltb, ltb→le,
  le→ltb, length, take, drop, drop-length, take-length, take-take, take-append-drop, length-append,
  Text, text_eq_iff, starts_with, starts_with_sound, starts_with-append, ends_with, split,
  ends_with_sound, ends_with-append, append_assoc, append-nil,
}
use rustytree.Glob.{star, last_of, middle_of, find_middle, match_parts, star_match}
use rustytree.Glob.Spec.{Matches}
use rustytree.Glob.Pieces.{Fits, Middle, Matches→Fits, Fits→Matches, Rest→Middle, Middle→Rest}
use rustytree.Glob.Scan.{find_middle_iff}

-- A text with a known beginning and end: the two positions of the loop cut out what is between.
window-middle :
    (first m last : Text)
    → drop
        (length first)
        (take (length (first ++ (m ++ last)) - length last) (first ++ (m ++ last)))
      ≡ m
window-middle first m last =
    let n₁ = length-append first (m ++ last) in
    let n₂ = length-append m last in
    let n₃ = length-append first m in
    let k : length (first ++ (m ++ last)) - length last ≡ length (first ++ m) = omega arith in
    rw (k, ← append_assoc first m last, take-length (first ++ m) last) (drop-length first m)

-- A text with both ends tested, and room for both, is the beginning, the window and the end.
ends-window :
    (first last name : Text)
    → starts_with first name ≡ true
    → ends_with last name ≡ true
    → length first + length last ≤ length name
    → name ≡ first ++ (drop (length first) (take (length name - length last) name) ++ last)
ends-window first last name s e room =
    let k = length name - length last in
    let enough : length first ≤ k = omega arith in
    let begin : take (length first) (take k name) ≡ first =
      take-take (length first) k name enough
      ∙ (ap (take (length first)) (starts_with_sound first name s)
          ∙ take-length first (drop (length first) name)) in
    ends_with_sound last name e
    ∙ (ap (λ t. t ++ last)
          (sym (take-append-drop (length first) (take k name))
            ∙ ap (λ t. t ++ drop (length first) (take k name)) begin)
        ∙ append_assoc first _ last)

module _ (first p : Text) (ps : List Text) where
  abbrev last : Text
  last = last_of p ps

  match_parts→Fits :
      (name : Text) → match_parts first (p ∷ ps) name ≡ true → Fits first (p ∷ ps) name
  unfolding match_parts
  match_parts→Fits name h =
      let (s, (e, (l, f))) = tests in
      let room : length first + length last ≤ length name = ltb→le _ _ l in
      let inner =
        (find_middle_iff (middle_of p ps) (length first) (length name - length last) name
            (omega arith) (omega arith)).0
          f in
      (_, ends-window first last name s e room, Middle→Rest p ps _ inner)
    where
      tests :
          (starts_with first name ≡ true)
          × ((ends_with last name ≡ true)
              × ((ltb (length name) (length first + length last) ≡ false)
                  × (find_middle (middle_of p ps) (length first) (length name - length last) name
                      ≡ true)))
      tests = ground arith

  Fits→match_parts :
      (name : Text) → Fits first (p ∷ ps) name → match_parts first (p ∷ ps) name ≡ true
  unfolding match_parts
  Fits→match_parts name (r, e, rest) =
      let (m, e', inner) = Rest→Middle p ps r rest in
      let whole : name ≡ first ++ (m ++ last) = e ∙ ap (λ t. first ++ t) e' in
      rw whole (reassemble m inner)
    where
      reassemble :
          (m : Text)
          → Middle (middle_of p ps) m
          → match_parts first (p ∷ ps) (first ++ (m ++ last)) ≡ true
      reassemble m inner =
          let n₁ = length-append first (m ++ last) in
          let n₂ = length-append m last in
          let room : length first + length last ≤ length (first ++ (m ++ last)) = omega arith in
          let ending : ends_with last (first ++ (m ++ last)) ≡ true =
            rw (← append_assoc first m last) (ends_with-append last (first ++ m)) in
          let loop =
            (find_middle_iff (middle_of p ps) (length first) _ (first ++ (m ++ last)) (omega arith)
                (omega arith)).1
              (rw (window-middle first m last) inner) in
          rw (starts_with-append first (m ++ last), ending, le→ltb _ _ room) loop

match_parts_iff :
    (first : Text) (rest : List Text) (name : Text)
    → (match_parts first rest name ≡ true) ↔ Fits first rest name
unfolding match_parts
match_parts_iff first [] name = (
  λ h. ([], sym ((text_eq_iff first name).0 h) ∙ sym (append-nil first), refl),
  λ (r, e, end).
      (text_eq_iff first name).1 (sym (append-nil first) ∙ sym (e ∙ ap (λ t. first ++ t) end)),
)
match_parts_iff first (p ∷ ps) name =
    (match_parts→Fits first p ps name, Fits→match_parts first p ps name)

-- For every pattern segment and every name, `star_match` returns true exactly if the name is the
-- pattern with each `*` replaced by some run of bytes.
pub star_match_iff : (pattern name : Text) → (star_match pattern name ≡ true) ↔ Matches pattern name
unfolding star_match
star_match_iff pattern name =
    let (to, from) = match_parts_iff (split star pattern).0 (split star pattern).1 name in
    (λ h. Fits→Matches pattern name (to h), λ m. from (Matches→Fits m))
