-- ===== src/Error/Tests.antt =====
-- The text of an error.
use rustytree.Prelude.{◌≡◌, refl, codes}
use rustytree.Error.{not_found, to_string}

not_found_text : to_string (not_found (codes "x")) ≡ codes "not found: x"
unfolding to_string
not_found_text = refl
