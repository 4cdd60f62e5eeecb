-- ===== src/Glob/Spec.antt =====
-- What a pattern segment and a whole pattern match, with no search order in it. A `*` takes any run
-- of bytes; every other byte takes itself.
use rustytree.Prelude.{ℕ, ◌≡◌, ◌≢◌, List, [], ◌∷◌, Text}
use rustytree.Glob.{star}

pub data Matches : Text → Text → Type 0 where
  empty : Matches [] []
  byte : {c : ℕ} {p s : Text} → c ≢ star → Matches p s → Matches (c ∷ p) (c ∷ s)
  leave : {c : ℕ} {p s : Text} → c ≡ star → Matches p s → Matches (c ∷ p) s
  take_one : {c b : ℕ} {p s : Text} → c ≡ star → Matches (c ∷ p) s → Matches (c ∷ p) (b ∷ s)

-- Segment by segment, with equally many on both sides: `PurePosixPath.match` on absolute patterns.
pub data MatchesAll : List Text → List Text → Type 0 where
  none_left : MatchesAll [] []
  segment :
      {p s : Text} {ps ss : List Text}
      → Matches p s
      → MatchesAll ps ss
      → MatchesAll (p ∷ ps) (s ∷ ss)
