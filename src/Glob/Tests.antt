-- ===== src/Glob/Tests.antt =====
-- Runs of `src/glob.rs` on the inputs of its unit tests, and the theorems at concrete inputs.
use rustytree.Prelude.{◌≡◌, refl, ◌↔◌, ◌++◌, [], ◌∷◌, arith, true, false, codes, some}
use rustytree.Glob.{slash, names, parse, star_match, could_descendant_match}
use rustytree.Glob.Spec.{Matches, empty, byte, leave, take_one, MatchesAll, none_left, segment}
use rustytree.Glob.Star.{star_match_iff}
use rustytree.Glob.Predicate.{
  CanMatch, could_descendant_match_iff, parse_keeps_matches, parse_prunes, dot_segment_is_pruned,
}

literal_segment : star_match (codes "sweep_0") (codes "sweep_0") ≡ true
unfolding star_match
literal_segment = refl

other_literal : star_match (codes "sweep_0") (codes "sweep_1") ≡ false
unfolding star_match
other_literal = refl

star_takes_nothing : star_match (codes "*") [] ≡ true
unfolding star_match
star_takes_nothing = refl

two_stars : star_match (codes "*sweep*") (codes "my_sweep_0") ≡ true
unfolding star_match
two_stars = refl

-- The prefix and the suffix may not share a byte.
ends_do_not_overlap : star_match (codes "ab*ba") (codes "aba") ≡ false
unfolding star_match
ends_do_not_overlap = refl

relative_pattern : could_descendant_match (parse (codes "*/sweep_0")) (codes "/anything") ≡ true
unfolding could_descendant_match parse
relative_pattern = refl

class_pattern : could_descendant_match (parse (codes "/[vV]olume/*")) (codes "/other") ≡ true
unfolding could_descendant_match parse
class_pattern = refl

too_deep :
    could_descendant_match (parse (codes "/*/sweep_0")) (codes "/VCP-12/sweep_0/extra") ≡ false
unfolding could_descendant_match parse
too_deep = refl

double_slash : could_descendant_match (parse (codes "/foo//bar")) (codes "/foo/bar") ≡ true
unfolding could_descendant_match parse
double_slash = refl

trailing_slash : could_descendant_match (parse (codes "/*/sweep_0/")) (codes "/V/sweep_0") ≡ true
unfolding could_descendant_match parse
trailing_slash = refl

star_match_iff_example :
    (star_match (codes "V*2") (codes "VCP-12") ≡ true) ↔ Matches (codes "V*2") (codes "VCP-12")
star_match_iff_example = star_match_iff (codes "V*2") (codes "VCP-12")

could_descendant_match_iff_example :
    (could_descendant_match (record { segments = some (codes "V*" ∷ codes "s" ∷ []) }) (codes "/V1")
      ≡ true)
    ↔ CanMatch (codes "V*" ∷ codes "s" ∷ []) (names (codes "/V1"))
could_descendant_match_iff_example =
    could_descendant_match_iff (codes "V*" ∷ codes "s" ∷ []) (codes "/V1")

star_s_matches : MatchesAll (names (codes "/*/s")) (names (codes "/V" ++ slash ∷ codes "s"))
unfolding names
star_s_matches =
    segment (take_one refl (leave refl empty)) (segment (byte (omega arith) empty) none_left)

parse_keeps_matches_example : could_descendant_match (parse (codes "/*/s")) (codes "/V") ≡ true
parse_keeps_matches_example =
    parse_keeps_matches (codes "/*/s") (codes "/V") (codes "s") star_s_matches

star_s_prunable : could_descendant_match (parse (codes "/*/s")) (codes "/V") ≡ true
unfolding could_descendant_match parse
star_s_prunable = refl

parse_prunes_example : CanMatch (names (codes "/*/s")) (names (codes "/V"))
unfolding parse
parse_prunes_example = parse_prunes (codes "/*/s") (codes "/V") refl star_s_prunable

-- `PurePosixPath("/x/y").match("/./x/*")` is true, and the walk does not enter `/x`.
dot_segment_is_pruned_example : could_descendant_match (parse (codes "/./x/*")) (codes "/x") ≡ false
unfolding parse
dot_segment_is_pruned_example =
    dot_segment_is_pruned (codes "/./x/*") (codes "/x") (codes "x") (codes "x" ∷ codes "*" ∷ []) []
      refl refl refl (ground arith)
