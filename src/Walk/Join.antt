-- ===== src/Walk/Join.antt =====
-- `futures::future::try_join_all`: the values in order, or the error of the future that failed
-- first in time. Which one that is depends on the scheduler, so `race` picks it.
use rustytree.Prelude.{◌≡◌, refl, ap, List, [], ◌∷◌, map}
use rustytree.Error.{RustytreeError, Result, ok, err}
use rustytree.Error.Ensures.{Ensures}

-- The values of the futures that succeed, and the errors of those that fail.
abbrev pub values {ℓ} : {A : Type ℓ} → List (Result A) → List A
values [] = []
values (ok a ∷ rs) = a ∷ values rs
values (err e ∷ rs) = values rs

abbrev pub failures {ℓ} : {A : Type ℓ} → List (Result A) → List RustytreeError
failures [] = []
failures (ok a ∷ rs) = failures rs
failures (err e ∷ rs) = e ∷ failures rs

abbrev pub Race : Type 0
Race = RustytreeError → List RustytreeError → RustytreeError

-- The result, by the errors.
abbrev pub settled {ℓ} : {A : Type ℓ} → Race → List RustytreeError → List A → Result (List A)
settled race [] vs = ok vs
settled race (e ∷ es) vs = err (race e es)

unfoldable pub try_join_all {ℓ} : {A : Type ℓ} → Race → List (Result A) → Result (List A)
try_join_all race rs = settled race (failures rs) (values rs)

failures-map_ok {ℓ} : {A : Type ℓ} (vs : List A) → failures (map ok vs) ≡ []
failures-map_ok [] = refl
failures-map_ok (v ∷ vs) = failures-map_ok vs

values-map_ok {ℓ} : {A : Type ℓ} (vs : List A) → values (map ok vs) ≡ vs
values-map_ok [] = refl
values-map_ok (v ∷ vs) = ap (◌∷◌ v) (values-map_ok vs)

-- Futures that all succeed give their values.
pub try_join_all-map {ℓ} :
    {A : Type ℓ} (race : Race) (vs : List A) → try_join_all race (map ok vs) ≡ ok vs
unfolding try_join_all
try_join_all-map race vs = rw (failures-map_ok vs, values-map_ok vs)

no_failures {ℓ} : {A : Type ℓ} (rs : List (Result A)) → failures rs ≡ [] → rs ≡ map ok (values rs)
no_failures [] e = refl
no_failures (ok a ∷ rs) e = ap (◌∷◌ (ok a)) (no_failures rs e)
no_failures (err x ∷ rs) e = cc

-- If a join gives values, then each future has given the one at its place.
pub try_join_all-Ensures {ℓ} :
    {A : Type ℓ} (race : Race) (rs : List (Result A))
    → Ensures (λ vs. rs ≡ map ok vs) (try_join_all race rs)
unfolding try_join_all
try_join_all-Ensures {A} race rs = settle (failures rs) (no_failures rs)
  where
    settle :
        (es : List RustytreeError)
        → (es ≡ [] → rs ≡ map ok (values rs))
        → Ensures (λ vs. rs ≡ map ok vs) (settled race es (values rs))
    settle [] h = h refl
    settle (e ∷ es) h = tt
