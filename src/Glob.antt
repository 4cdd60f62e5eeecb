-- ===== src/Glob.antt =====
-- src/glob.rs: the glob prefix predicate of the discovery walk, and `star_match` below it.
pub mod Spec
mod Pieces
mod Scan
pub mod Star
pub mod Names
pub mod Predicate
mod Tests
use package.rustytree.Prelude.{
  ℕ, ◌+◌, ◌-◌, ◌<◌, Bool, true, false, not, ◌||◌, if◌then◌else◌, ltb, Option, none, some, List, [],
  ◌∷◌, length, take, drop, keep, Text, codes, text_eq, starts_with, ends_with, find, contains,
  split, trim_start, trim_end,
}

-- `None` in `segments` means that nothing can be pruned.
pub record GlobPredicate : Type 0 where
  pub segments : Option (List Text)

abbrev pub slash : ℕ
slash = b'/'

abbrev pub star : ℕ
star = b'*'

abbrev is_empty : Text → Bool
is_empty [] = true
is_empty (_ ∷ _) = false

-- `.split('/').filter(|s| !s.is_empty()).collect()`
pub names : Text → List Text
unfolding split
names s = let (first, rest) = split slash s in keep (λ t. not (is_empty t)) (first ∷ rest)

-- `GlobPredicate::parse`
pub parse : Text → GlobPredicate
unfolding starts_with contains trim_start trim_end names
parse pattern =
    if not (starts_with (codes "/") pattern)
    then record { segments = none }
    else if contains (codes "?") pattern || contains (codes "[") pattern
    then record { segments = none }
    else record { segments = some (names (trim_end slash (trim_start slash pattern))) }

-- The last piece of `parts`, and `parts[1 .. parts.len() - 1]`, for a list `p ∷ ps` of the pieces
-- after the first.
abbrev pub last_of : Text → List Text → Text
last_of p [] = p
last_of p (q ∷ qs) = last_of q qs

abbrev pub middle_of : Text → List Text → List Text
middle_of p [] = []
middle_of p (q ∷ qs) = p ∷ middle_of q qs

-- The loop over the middle pieces; `name[cursor..stop]` is a `take` and a `drop`.
pub find_middle : List Text → ℕ → ℕ → Text → Bool
unfolding find
find_middle [] cursor stop name = true
find_middle (piece ∷ pieces) cursor stop name =
    if ltb stop cursor then false else elim (find piece (drop cursor (take stop name))) [
      | some idx ↦ find_middle pieces (cursor + (idx + length piece)) stop name
      | none ↦ false
    ]

pub match_parts : Text → List Text → Text → Bool
unfolding text_eq starts_with ends_with find_middle
match_parts first [] name = text_eq first name
match_parts first (p ∷ ps) name =
    let last = last_of p ps in
    let cursor = length first in
    let stop = length name - length last in
    if not (starts_with first name)
    then false
    else if not (ends_with last name)
    then false
    else if ltb (length name) (length first + length last)
    then false
    else find_middle (middle_of p ps) cursor stop name

-- `star_match(pattern, name)`
pub star_match : Text → Text → Bool
unfolding split match_parts
star_match pattern name = let (first, rest) = split star pattern in match_parts first rest name

-- The loop over `path_segs.iter().zip(segs.iter())`, which ends with the shorter list.
pub match_each : List Text → List Text → Bool
unfolding star_match
match_each (path_seg ∷ path_segs) (pat_seg ∷ segs) =
    if not (star_match pat_seg path_seg) then false else match_each path_segs segs
match_each _ _ = true

-- `GlobPredicate::could_descendant_match`
pub could_descendant_match : GlobPredicate → Text → Bool
unfolding trim_start names match_each
could_descendant_match self path = elim self.segments [
  | none ↦ true
  | some segs ↦
      let path_segs = names (trim_start slash path) in
      if ltb (length segs) (length path_segs) then false else match_each path_segs segs
]
