-- ===== src/Store/Laws.antt =====
-- Storage options, S3 URLs, and session bytes.
use rustytree.Prelude.{
  ◌≡◌, refl, sym, subst, ap, ◌∙◌, ◌↔◌, inl, inr, Bool, Bool-cases, true, false, if◌then◌else◌, List,
  [], ◌∷◌, ◌++◌, Text, codes, text_eq, text_eq_sound, text_eq_refl, All, Occurs, Occurs-append_left,
  Occurs-append_right, Occurs-append_inv,
}
use rustytree.Error.{Result, ok, err, ◌>>=◌}
use rustytree.Url.{parse_store_spec, s3}
use rustytree.Url.Laws.{IsNormal, s3_location, parse-s3_location}
use rustytree.Store.{
  S3Api, S3Option, region, endpoint, access_key_id, secret_access_key, session_token, allow_http,
  skip_signature, unknown, arms, find_arm, option_of, one_of, true_words, false_words, bool_opt,
  apply_option, apply_s3_option, apply_options, s3_url,
}

-- The values that an option takes.
abbrev pub Takes : S3Option → Text → Type 0
Takes region value = Unit
Takes endpoint value = Unit
Takes access_key_id value = Unit
Takes secret_access_key value = Unit
Takes session_token value = Unit
Takes allow_http value = Occurs value (true_words ++ false_words)
Takes skip_signature value = Occurs value (true_words ++ false_words)
Takes unknown value = ⊥

-- One of the known keys, with a value that it takes.
abbrev pub IsValid : Text × Text → Type 0
IsValid (key, value) = (option : S3Option) × (Occurs (key, option) arms × Takes option value)

find_arm-Occurs :
    (key value : Text) (rest : List (Text × S3Option))
    → Takes (find_arm key rest) value
    → Occurs (key, find_arm key rest) rest
unfolding find_arm
find_arm-Occurs key value [] t = t
find_arm-Occurs key value ((name, option) ∷ rest) t =
    by_test (text_eq key name) refl (find_arm-Occurs key value rest) t
  where
    by_test :
        (b : Bool)
        → text_eq key name ≡ b
        → (Takes (find_arm key rest) value → Occurs (key, find_arm key rest) rest)
        → Takes (if b then option else find_arm key rest) value
        → Occurs (key, if b then option else find_arm key rest) ((name, option) ∷ rest)
    by_test true e later t = inl (ap (λ k. (k, option)) (text_eq_sound key name e))
    by_test false e later t = inr (later t)

option_of-arm :
    (key : Text) (option : S3Option) → Occurs (key, option) arms → option_of key ≡ option
unfolding option_of find_arm text_eq
option_of-arm key option (inl e) = subst (λ a. option_of a.0 ≡ a.1) (sym e) refl
option_of-arm key option (inr (inl e)) = subst (λ a. option_of a.0 ≡ a.1) (sym e) refl
option_of-arm key option (inr (inr (inl e))) = subst (λ a. option_of a.0 ≡ a.1) (sym e) refl
option_of-arm key option (inr (inr (inr (inl e)))) = subst (λ a. option_of a.0 ≡ a.1) (sym e) refl
option_of-arm key option (inr (inr (inr (inr (inl e))))) =
    subst (λ a. option_of a.0 ≡ a.1) (sym e) refl
option_of-arm key option (inr (inr (inr (inr (inr (inl e)))))) =
    subst (λ a. option_of a.0 ≡ a.1) (sym e) refl
option_of-arm key option (inr (inr (inr (inr (inr (inr (inl e))))))) =
    subst (λ a. option_of a.0 ≡ a.1) (sym e) refl
option_of-arm key option (inr (inr (inr (inr (inr (inr (inr (inl e)))))))) =
    subst (λ a. option_of a.0 ≡ a.1) (sym e) refl
option_of-arm key option (inr (inr (inr (inr (inr (inr (inr (inr e)))))))) = absurd e

one_of_iff : (t : Text) (words : List Text) → (one_of t words ≡ true) ↔ Occurs t words
unfolding one_of
one_of_iff t [] = (λ e. cc, λ o. absurd o)
one_of_iff t (word ∷ words) =
    let (to, from) = one_of_iff t words in
    elim (Bool-cases (text_eq t word)) [
      | inl e ↦ rw e ((λ _. inl (text_eq_sound t word e)), (λ _. refl))
      | inr e ↦ rw e (
        (λ f. inr (to f)),
        (λ o. elim o [
          | inl f ↦
              let same : text_eq t word ≡ true =
                subst (λ w. text_eq t w ≡ true) f (text_eq_refl t) in
              cc
          | inr o ↦ from o
        ]),
      )
    ]

-- A call that succeeds.
abbrev pub Succeeds {ℓ} : {A : Type ℓ} → Result A → Type ℓ
Succeeds {A} r = (a : A) × (r ≡ ok a)

option_of-found :
    (key value : Text) → Takes (option_of key) value → Occurs (key, option_of key) arms
unfolding option_of
option_of-found key value t = find_arm-Occurs key value arms t

Succeeds-then {ℓ κ} :
    {A : Type ℓ} {B : Type κ} {P : Type 0} (r : Result A) (f : A → B)
    → Succeeds r ↔ P
    → Succeeds (r >>= λ a. ok (f a)) ↔ P
Succeeds-then (ok a) f (to, from) = (λ _. to (a, refl), λ _. (f a, refl))
Succeeds-then (err e) f (to, from) = (λ (b, g). cc, λ p. let (a, g) = from p in cc)

Succeeds-bind {ℓ κ} :
    {A : Type ℓ} {B : Type κ} {P Q : Type 0} (r : Result A) (f : A → Result B)
    → Succeeds r ↔ P
    → ((a : A) → Succeeds (f a) ↔ Q)
    → Succeeds (r >>= f) ↔ (P × Q)
Succeeds-bind (ok a) f (to, from) each = (λ s. (to (a, refl), (each a).0 s), λ (p, q). (each a).1 q)
Succeeds-bind (err e) f (to, from) each = (λ (b, g). cc, λ (p, q). let (a, g) = from p in cc)

module _ {V : Type 0} (api : S3Api V) where
  bool_opt_iff :
      (key value : Text)
      → Succeeds (bool_opt api key value) ↔ Occurs value (true_words ++ false_words)
  unfolding bool_opt
  bool_opt_iff key value = elim (Bool-cases (one_of value true_words)) [
    | inl e ↦ rw e (
      (λ _. Occurs-append_left value true_words false_words ((one_of_iff value true_words).0 e)),
      (λ _. (true, refl)),
    )
    | inr e ↦ elim (Bool-cases (one_of value false_words)) [
      | inl f ↦
          rw (e, f)
            (
              (λ _.
                  Occurs-append_right value true_words false_words
                    ((one_of_iff value false_words).0 f)),
              (λ _. (false, refl)),
            )
      | inr f ↦
          rw (e, f)
            (
              (λ (b, g). cc),
              (λ o. elim (Occurs-append_inv value true_words false_words o) [
                | inl o ↦ let t = (one_of_iff value true_words).1 o in cc
                | inr o ↦ let t = (one_of_iff value false_words).1 o in cc
              ]),
            )
    ]
  ]

  apply_option_iff :
      (option : S3Option) (key value : Text) (builder : api.Builder)
      → Succeeds (apply_option api option key value builder) ↔ Takes option value
  apply_option_iff region key value builder = (λ _. tt, λ _. (_, refl))
  apply_option_iff endpoint key value builder = (λ _. tt, λ _. (_, refl))
  apply_option_iff access_key_id key value builder = (λ _. tt, λ _. (_, refl))
  apply_option_iff secret_access_key key value builder = (λ _. tt, λ _. (_, refl))
  apply_option_iff session_token key value builder = (λ _. tt, λ _. (_, refl))
  apply_option_iff allow_http key value builder =
      Succeeds-then (bool_opt api key value) (λ b. api.with_allow_http b builder)
        (bool_opt_iff key value)
  apply_option_iff skip_signature key value builder =
      Succeeds-then (bool_opt api key value) (λ b. api.with_skip_signature b builder)
        (bool_opt_iff key value)
  apply_option_iff unknown key value builder = (λ (b, e). cc, λ f. absurd f)

  apply_s3_option_iff :
      (builder : api.Builder) (key value : Text)
      → Succeeds (apply_s3_option api builder key value) ↔ IsValid (key, value)
  unfolding apply_s3_option
  apply_s3_option_iff builder key value =
      let (to, from) = apply_option_iff (option_of key) key value builder in
      (
        λ s. let t = to s in (option_of key, (option_of-found key value t, t)),
        λ (option, (o, t)). from (subst (λ x. Takes x value) (sym (option_of-arm key option o)) t),
      )

  -- For any builder and the options in any order: the loop over the storage options succeeds
  -- exactly if each option has one of the eight known keys, with one of the eight Boolean words for
  -- `allow_http`, `skip_signature` and `anon`.
  pub apply_options_iff :
      (builder : api.Builder) (options : List (Text × Text))
      → Succeeds (apply_options api builder options) ↔ All IsValid options
  unfolding apply_options
  apply_options_iff builder [] = (λ _. tt, λ _. (builder, refl))
  apply_options_iff builder ((key, value) ∷ options) =
      Succeeds-bind (apply_s3_option api builder key value) (λ next. apply_options api next options)
        (apply_s3_option_iff builder key value) (λ next. apply_options_iff next options)

s3_url-s3_location :
    (bucket prefix : Text) → s3_url bucket prefix ≡ codes "s3://" ++ s3_location bucket prefix
unfolding s3_url
s3_url-s3_location bucket [] = refl
s3_url-s3_location bucket (c ∷ prefix) = refl

-- For a bucket with a name and no separator in it, and a prefix with none at either end: the URL
-- that is built for the object store parses to the bucket and the prefix.
pub parse-s3_url :
    (bucket prefix : Text)
    → IsNormal bucket prefix
    → parse_store_spec (s3_url bucket prefix) ≡ ok (s3 bucket prefix)
parse-s3_url bucket prefix n =
    ap parse_store_spec (s3_url-s3_location bucket prefix) ∙ parse-s3_location bucket prefix n
