-- ===== src/Glob/Predicate.antt =====
-- `parse` and `could_descendant_match` against the matches of a pattern.
use rustytree.Prelude.{
  ℕ, ◌≤◌, ◌≡◌, ◌≢◌, refl, ◌∙◌, ap, ◌↔◌, inl, inr, List, [], ◌∷◌, ◌++◌, arith, Bool, true, false,
  not, ◌||◌, ltb, ltb→le, le→ltb, ◌==◌, ==_iff, Bool-cases, some, none, length, Text, codes,
  if◌then◌else◌, ◌&&◌, starts_with, contains, trim_start,
}
use rustytree.Glob.{
  GlobPredicate, slash, star, names, parse, star_match, match_each, could_descendant_match,
}
use rustytree.Glob.Names.{names-append, names-trim_start, names-trim_end}
use rustytree.Glob.Spec.{Matches, empty, byte, leave, take_one, MatchesAll, none_left, segment}
use rustytree.Glob.Star.{star_match_iff}

-- A segment matches itself: read as a name, it has a `*` where the pattern has one.
Matches-self : (p : Text) → Matches p p
Matches-self [] = empty
Matches-self (c ∷ p) = elim (Bool-cases (c == star)) [
  | inl e ↦ let is_star = (==_iff c star).0 e in take_one is_star (leave is_star (Matches-self p))
  | inr e ↦ byte (ground arith) (Matches-self p)
]

pub MatchesAll-self : (ps : List Text) → MatchesAll ps ps
MatchesAll-self [] = none_left
MatchesAll-self (p ∷ ps) = segment (Matches-self p) (MatchesAll-self ps)

-- A segment that begins with another byte than `*` takes a name that begins with that byte.
Matches-byte :
    {c : ℕ} {p s : Text} → c ≢ star → Matches (c ∷ p) s → (r : Text) × (s ≡ c ∷ r) × Matches p r
Matches-byte ne (byte {s} _ m) = (s, refl, m)
Matches-byte ne (leave e m) = absurd (ne e)
Matches-byte ne (take_one e m) = absurd (ne e)

Matches-nil : {s : Text} → Matches [] s → s ≡ []
Matches-nil empty = refl

Matches-dot : {s : Text} → Matches (codes ".") s → s ≡ codes "."
Matches-dot m =
    let (r, e, more) = Matches-byte (omega arith) m in e ∙ ap (λ t. b'.' ∷ t) (Matches-nil more)

-- Some path at or below one with the segments `path_segs` matches the pattern.
abbrev pub CanMatch : List Text → List Text → Type 0
CanMatch segs path_segs = (more : List Text) × MatchesAll segs (path_segs ++ more)

MatchesAll-head :
    {p s : Text} {ps ss : List Text} → MatchesAll (p ∷ ps) (s ∷ ss) → Matches p s × MatchesAll ps ss
MatchesAll-head (segment m ms) = (m, ms)

not-nil-MatchesAll : {s : Text} {ss : List Text} → ¬ MatchesAll [] (s ∷ ss)
not-nil-MatchesAll m = elim m [ ]

match_each-step :
    (s p : Text) (ss ps : List Text)
    → (match_each (s ∷ ss) (p ∷ ps) ≡ true) ↔ ((star_match p s ≡ true) × (match_each ss ps ≡ true))
unfolding match_each
match_each-step s p ss ps = (ground arith, ground arith)

match_each→CanMatch :
    (path_segs segs : List Text)
    → length path_segs ≤ length segs
    → match_each path_segs segs ≡ true
    → CanMatch segs path_segs
match_each→CanMatch [] segs h e = (segs, MatchesAll-self segs)
match_each→CanMatch (s ∷ ss) [] h e = absurd (omega arith)
match_each→CanMatch (s ∷ ss) (p ∷ ps) h e =
    let (here, rest) = (match_each-step s p ss ps).0 e in
    let (more, m) = match_each→CanMatch ss ps (omega arith) rest in
    (more, segment ((star_match_iff p s).0 here) m)

CanMatch→match_each :
    (path_segs segs more : List Text)
    → MatchesAll segs (path_segs ++ more)
    → (length path_segs ≤ length segs) × (match_each path_segs segs ≡ true)
CanMatch→match_each [] segs more m = (omega arith, unfold match_each in refl)
CanMatch→match_each (s ∷ ss) [] more m = absurd (not-nil-MatchesAll m)
CanMatch→match_each (s ∷ ss) (p ∷ ps) more m =
    let (here, rest) = MatchesAll-head m in
    let (le, each) = CanMatch→match_each ss ps more rest in
    (omega arith, (match_each-step s p ss ps).1 ((star_match_iff p s).1 here, each))

guard_inv : (b c : Bool) → (if b then false else c) ≡ true → (b ≡ false) × (c ≡ true)
guard_inv b c h = ground arith

-- For a predicate that holds segments, `could_descendant_match` returns true exactly if some list
-- of further segments makes the path match the pattern, segment by segment.
pub could_descendant_match_iff :
    (segs : List Text) (path : Text)
    → (could_descendant_match (record { segments = some segs }) path ≡ true)
      ↔ CanMatch segs (names path)
unfolding could_descendant_match
could_descendant_match_iff segs path = rw (names-trim_start path) (to, from)
  where
    path_segs : List Text
    path_segs = names path

    to :
        (if ltb (length segs) (length path_segs) then false else match_each path_segs segs) ≡ true
        → CanMatch segs path_segs
    to h =
        let (depth, each) = guard_inv _ _ h in
        match_each→CanMatch path_segs segs (ltb→le _ _ depth) each

    from :
        CanMatch segs path_segs
        → (if ltb (length segs) (length path_segs) then false else match_each path_segs segs) ≡ true
    from (more, m) =
        let (le, each) = CanMatch→match_each path_segs segs more m in rw (le→ltb _ _ le) each

abbrev is_prunable : Text → Bool
is_prunable pattern =
    starts_with (codes "/") pattern
    && not (contains (codes "?") pattern || contains (codes "[") pattern)

module _ (a b : Bool) (x y : GlobPredicate) where
  third_branch : (a && not b) ≡ true → (if not a then x else if b then x else y) ≡ y
  third_branch h = ground arith

  early_branch : (a && not b) ≡ false → (if not a then x else if b then x else y) ≡ x
  early_branch h = ground arith

parse_segments :
    (pattern : Text)
    → is_prunable pattern ≡ true
    → parse pattern ≡ record { segments = some (names pattern) }
unfolding parse
parse_segments pattern h =
    third_branch _ _ _ _ h
    ∙ ap (λ ns. record { segments = some ns })
        (names-trim_end (trim_start slash pattern) ∙ names-trim_start pattern)

parse-none :
    (pattern : Text) → is_prunable pattern ≡ false → parse pattern ≡ record { segments = none }
unfolding parse
parse-none pattern h = early_branch _ _ _ _ h

-- The predicate lets the walk enter each path above a match.
pub parse_keeps_above :
    (pattern path : Text) (more : List Text)
    → MatchesAll (names pattern) (names path ++ more)
    → could_descendant_match (parse pattern) path ≡ true
parse_keeps_above pattern path more m = elim (Bool-cases (is_prunable pattern)) [
  | inl t ↦
      rw (parse_segments pattern t) ((could_descendant_match_iff (names pattern) path).1 (more, m))
  | inr f ↦ rw (parse-none pattern f) (unfold could_descendant_match in refl)
]

-- For every pattern and every path: if the path, or the path with more segments after a separator,
-- matches the pattern segment by segment, then the predicate parsed from the pattern lets the walk
-- enter the path. A path `deeper` that is empty stands for the path itself.
pub parse_keeps_matches :
    (pattern path deeper : Text)
    → MatchesAll (names pattern) (names (path ++ slash ∷ deeper))
    → could_descendant_match (parse pattern) path ≡ true
parse_keeps_matches pattern path deeper m =
    parse_keeps_above pattern path (names deeper) (rw (names-append path deeper) at m)

-- For an absolute pattern with no `?` and no `[`, a path that the parsed predicate lets through can
-- be completed by further segments to a match of the pattern, segment by segment.
pub parse_prunes :
    (pattern path : Text)
    → is_prunable pattern ≡ true
    → could_descendant_match (parse pattern) path ≡ true
    → CanMatch (names pattern) (names path)
parse_prunes pattern path h e =
    (could_descendant_match_iff (names pattern) path).0 (rw (parse_segments pattern h) at e)

-- For every prunable pattern whose first segment is `.` and every path whose first segment is
-- another name, the predicate parsed from the pattern prunes the path.
pub dot_segment_is_pruned :
    (pattern path name : Text) (segs path_segs : List Text)
    → is_prunable pattern ≡ true
    → names pattern ≡ codes "." ∷ segs
    → names path ≡ name ∷ path_segs
    → name ≢ codes "."
    → could_descendant_match (parse pattern) path ≡ false
dot_segment_is_pruned pattern path name segs path_segs h ep en ne =
    elim (Bool-cases (could_descendant_match (parse pattern) path)) [
      | inl t ↦
          let (more, m) = parse_prunes pattern path h t in
          absurd (ne (Matches-dot (MatchesAll-head (rw (ep, en) at m)).0))
      | inr f ↦ f
    ]
