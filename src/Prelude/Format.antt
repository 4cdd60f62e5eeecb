-- ===== src/Prelude/Format.antt =====
-- The texts that `format!` writes for numbers, and a `String` out of `char`s.
use Prim.Native.Nat.{ℕ, zero, suc, ◌+◌, ◌/◌, ◌%◌}
use mathlib.Core.Bool.{true, false}
use mathlib.Core.List.{List, [], ◌∷◌, ◌++◌}
use rustytree.Prelude.Tests.{ltb, if◌then◌else◌}
use rustytree.Prelude.Str.{Text}

-- The decimal digits of a number below `10 ^ fuel`.
pub digits : ℕ → ℕ → Text
digits zero n = []
digits (suc fuel) n = elim (ltb n 10) [
  | true ↦ (b'0' + n) ∷ []
  | false ↦ digits fuel (n / 10) ++ ((b'0' + n % 10) ∷ [])
]

-- `format!("{n}")`
unfoldable pub decimal : ℕ → Text
unfolding digits
decimal n = digits (suc n) n

-- The UTF-8 bytes of one `char`.
abbrev pub utf8 : ℕ → Text
utf8 c =
    if ltb c 0x80
    then c ∷ []
    else if ltb c 0x800
    then (0xc0 + c / 64) ∷ (0x80 + c % 64) ∷ []
    else if ltb c 0x1_0000
    then (0xe0 + c / 4096) ∷ (0x80 + c / 64 % 64) ∷ (0x80 + c % 64) ∷ []
    else (0xf0 + c / 0x4_0000)
      ∷ (0x80 + c / 4096 % 64)
      ∷ (0x80 + c / 64 % 64)
      ∷ (0x80 + c % 64)
      ∷ []

-- `chars.into_iter().collect::<String>()`
unfoldable pub from_chars : List ℕ → Text
from_chars [] = []
from_chars (c ∷ cs) = utf8 c ++ from_chars cs
