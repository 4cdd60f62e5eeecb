-- ===== src/Error/Ensures.antt =====
-- What holds of the values that a fallible call of src/ returns.
use rustytree.Prelude.{◌≡◌, subst}
use rustytree.Error.{Result, ok, err, ◌>>=◌}

module _ {ℓ κ} {A : Type ℓ} (Q : A → Type κ) where
  abbrev pub Ensures : Result A → Type κ
  Ensures (ok a) = Q a
  Ensures (err e) = Unit

  pub Ensures-ok : (r : Result A) (a : A) → Ensures r → r ≡ ok a → Q a
  Ensures-ok r a h e = subst Ensures e h

-- A chain of two calls.
pub Ensures-bind {ℓ κ μ ν} :
    {A : Type ℓ} {B : Type κ} (Q : A → Type μ) (R : B → Type ν) (r : Result A) (f : A → Result B)
    → Ensures Q r
    → ((a : A) → Q a → Ensures R (f a))
    → Ensures R (r >>= f)
Ensures-bind Q R (ok a) f h k = k a h
Ensures-bind Q R (err e) f h k = tt
