-- ===== src/Prelude/Str.antt =====
-- A Rust `str` as the list of its UTF-8 bytes, with the operations of `str` that the crate calls.
-- A search for a text in a text finds the same places by bytes as by characters, since UTF-8 is
-- self-synchronising; the separators that the crate splits at are ASCII.
use Prim.Native.Nat.{ℕ, suc, ◌+◌, ◌-◌}
use Prim.Native.Char.{code}
use Prim.Native.String.{String}
use mathlib.Core.Bool.{Bool, true, false, ◌&&◌}
use mathlib.Core.List.{List, [], ◌∷◌}
use mathlib.Core.Option
use mathlib.Core.Option.{Option, none, some}
use rustytree.Prelude.Tests.{◌==◌, ltb, if◌then◌else◌}
use rustytree.Prelude.Lists.{length, take, drop}

abbrev pub Text : Type 0
Text = List ℕ

-- The bytes of an ASCII literal.
abbrev pub codes : String → Text
codes String.[] = []
codes (String.◌∷◌ c s) = code c ∷ codes s

-- `a == b`
unfoldable pub text_eq : Text → Text → Bool
text_eq [] [] = true
text_eq (a ∷ s) (b ∷ t) = (a == b) && text_eq s t
text_eq _ _ = false

-- `s.starts_with(p)`
unfoldable pub starts_with : Text → Text → Bool
starts_with [] s = true
starts_with (a ∷ p) [] = false
starts_with (a ∷ p) (b ∷ s) = (a == b) && starts_with p s

-- `s.ends_with(p)`
unfoldable pub ends_with : Text → Text → Bool
unfolding text_eq
ends_with p s =
    if ltb (length s) (length p) then false else text_eq (drop (length s - length p) s) p

-- `s.find(p)`: the first place where `p` stands in `s`.
unfoldable pub find : Text → Text → Option ℕ
unfolding starts_with
find p [] = if starts_with p [] then some 0 else none
find p (c ∷ s) = if starts_with p (c ∷ s) then some 0 else Option.map suc (find p s)

-- `s.contains(p)`
unfoldable pub contains : Text → Text → Bool
unfolding find
contains p s = elim (find p s) [ some _ ↦ true | none ↦ false ]

-- `s.strip_prefix(p)`
unfoldable pub strip_prefix : Text → Text → Option Text
unfolding starts_with
strip_prefix p s = if starts_with p s then some (drop (length p) s) else none

-- `s.split(c)`: the first piece, and the pieces after it.
unfoldable pub split : ℕ → Text → Text × List Text
split c [] = ([], [])
split c (b ∷ s) =
    let (first, rest) = split c s in if b == c then ([], first ∷ rest) else (b ∷ first, rest)

-- `s.split_once(p)`: what stands before and after the first `p`.
unfoldable pub split_once : Text → Text → Option (Text × Text)
unfolding find
split_once p s = Option.map (λ i. (take i s, drop (i + length p) s)) (find p s)

-- `s.trim_start_matches(c)`
unfoldable pub trim_start : ℕ → Text → Text
trim_start c [] = []
trim_start c (b ∷ s) = if b == c then trim_start c s else b ∷ s

-- `s.trim_end_matches(c)`
unfoldable pub trim_end : ℕ → Text → Text
trim_end c [] = []
trim_end c (b ∷ s) = elim (trim_end c s) [ [] ↦ if b == c then [] else b ∷ [] | d ∷ t ↦ b ∷ d ∷ t ]

-- `s.rsplit_once(c)`: what stands before and after the last `c`.
unfoldable pub rsplit_once : ℕ → Text → Option (Text × Text)
rsplit_once c [] = none
rsplit_once c (b ∷ s) = elim (rsplit_once c s) [
  | some (before, after) ↦ some (b ∷ before, after)
  | none ↦ if b == c then some ([], s) else none
]
