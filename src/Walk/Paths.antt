-- ===== src/Walk/Paths.antt =====
-- `normalize_path` and `parent_of` of src/walk.rs.
mod Tests
pub mod Laws
use package.rustytree.Prelude.{
  ℕ, Bool, ◌&&◌, if◌then◌else◌, ltb, Option, none, some, [], ◌∷◌, length, Text, codes, ends_with,
  trim_end, rsplit_once,
}

abbrev pub slash : ℕ
slash = b'/'

unfoldable pub normalize_path : Text → Text
unfolding ends_with trim_end
normalize_path [] = codes "/"
normalize_path (c ∷ path) =
    if ltb 1 (length (c ∷ path)) && ends_with (codes "/") (c ∷ path)
    then trim_end slash (c ∷ path)
    else c ∷ path

-- The match of `parent_of` on what stands before and after the last separator.
abbrev pub parent_part : Option (Text × Text) → Text
parent_part none = codes "/"
parent_part (some ([], name)) = codes "/"
parent_part (some (c ∷ parent, name)) = c ∷ parent

unfoldable pub parent_of : Text → Text
parent_of path = parent_part (rsplit_once slash path)

-- The name of an array: what stands after the last separator.
abbrev pub last_part : Text → Option (Text × Text) → Text
last_part path none = path
last_part path (some (parent, name)) = name

unfoldable pub array_name : Text → Text
array_name path = last_part path (rsplit_once slash path)
