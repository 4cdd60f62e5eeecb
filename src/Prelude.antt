-- ===== src/Prelude.antt =====
-- The names that the other modules share: the libraries', passed on, and those of the children.
mod Tests
mod Lists
mod Str
mod StrLaws
mod Bytes
mod Format
pub use StrLaws.*
pub use Bytes.*
unfoldable pub use Format.{decimal, from_chars}
pub use Tests.*
pub use Lists.*
unfoldable pub use Str.{text_eq, starts_with, ends_with, find, contains, strip_prefix, split}
unfoldable pub use Str.{split_once, trim_start, trim_end, rsplit_once}
pub use Str.{Text, codes}
pub use Prim.Native.Nat.{ℕ, zero, suc, ◌+◌, ◌-◌, ◌*◌, ◌/◌, ◌%◌, ◌^◌, ◌≤◌, ◌<◌, min, max}
pub use mathlib.Core.Path.{◌≡◌, refl, sym, ap, ap₂, ◌∙◌}
pub use std.Path.{subst}
pub use mathlib.Core.Logic.{◌≢◌, ◌↔◌, ◌⊎◌, inl, inr}
pub use mathlib.Core.Bool.{Bool, true, false, not, ◌&&◌, ◌||◌}
pub use mathlib.Core.Option.{Option, none, some}
pub use mathlib.Core.List.{List, [], ◌∷◌, ◌++◌, map, append-nil, append_assoc}
pub use native.Mathlib.Omega.{arith}
