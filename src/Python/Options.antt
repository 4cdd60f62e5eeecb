-- ===== src/Python/Options.antt =====
-- The storage options of `open_datatree` of src/lib.rs that `apply_s3_option` of src/store.rs refuses.
use rustytree.Prelude.{
  ℕ, ◌≡◌, refl, inl, inr, Bool-cases, none, some, List, [], ◌∷◌, Text, Occurs, All-at,
}
use rustytree.Error
use rustytree.Error.{RustytreeError, Result, ok, err, ◌>>=◌, value_error, to_py_err}
use rustytree.Array.Read
use rustytree.Url.{s3, parse_store_spec}
use rustytree.Store.{
  S3Api, S3Option, region, endpoint, access_key_id, secret_access_key, session_token, allow_http,
  skip_signature, unknown, option_of, one_of, true_words, false_words, bool_opt, apply_option,
  apply_s3_option, apply_options, s3_url, build_vanilla_s3,
}
use rustytree.Store.Laws.{IsValid, apply_options_iff}
use rustytree.Python.Object.{Platform}
use rustytree.Python.Refuses.{Raises}
use rustytree.Python.Open.{
  PySource, Arguments, Crates, options_or_default, open_source, parse_arguments, open_datatree,
}

-- An option with an unknown key, or with a value that its key does not take.
abbrev pub IsRefused : Text × Text → Type 0
IsRefused option = ¬ IsValid option

-- A `HashMap` gives each of its entries.
abbrev pub GivesAll : {V : Type 0} → Crates V → Type 0
GivesAll crates =
    (options : List (Text × Text)) (option : Text × Text)
    → Occurs option options
    → Occurs option (crates.hash_order options)

-- If the call fails, Python sees a `ValueError`.
abbrev FailsByValue {ℓ} : {A : Type ℓ} → Result A → Type 0
FailsByValue (ok a) = Unit
FailsByValue (err e) = Error.PyErr.exception (to_py_err e) ≡ value_error

FailsByValue-bind {ℓ κ} :
    {A : Type ℓ} {B : Type κ} (r : Result A) (f : A → Result B)
    → FailsByValue r
    → ((a : A) → FailsByValue (f a))
    → FailsByValue (r >>= f)
FailsByValue-bind (ok a) f h k = k a
FailsByValue-bind (err e) f h k = h

module _ {V : Type 0} (api : S3Api V) where
  bool_opt-FailsByValue : (key value : Text) → FailsByValue (bool_opt api key value)
  unfolding bool_opt to_py_err
  bool_opt-FailsByValue key value = elim (Bool-cases (one_of value true_words)) [
    | inl e ↦ rw e tt
    | inr e ↦ elim (Bool-cases (one_of value false_words)) [
      | inl f ↦ rw (e, f) tt
      | inr f ↦ rw (e, f) refl
    ]
  ]

  apply_option-FailsByValue :
      (option : S3Option) (key value : Text) (builder : api.Builder)
      → FailsByValue (apply_option api option key value builder)
  unfolding to_py_err
  apply_option-FailsByValue region key value builder = tt
  apply_option-FailsByValue endpoint key value builder = tt
  apply_option-FailsByValue access_key_id key value builder = tt
  apply_option-FailsByValue secret_access_key key value builder = tt
  apply_option-FailsByValue session_token key value builder = tt
  apply_option-FailsByValue allow_http key value builder =
      FailsByValue-bind (bool_opt api key value) _ (bool_opt-FailsByValue key value) (λ b. tt)
  apply_option-FailsByValue skip_signature key value builder =
      FailsByValue-bind (bool_opt api key value) _ (bool_opt-FailsByValue key value) (λ b. tt)
  apply_option-FailsByValue unknown key value builder = refl

  apply_options-FailsByValue :
      (builder : api.Builder) (options : List (Text × Text))
      → FailsByValue (apply_options api builder options)
  unfolding apply_options apply_s3_option
  apply_options-FailsByValue builder [] = tt
  apply_options-FailsByValue builder ((key, value) ∷ options) =
      FailsByValue-bind (apply_s3_option api builder key value)
        (λ next. apply_options api next options)
        (apply_option-FailsByValue (option_of key) key value builder)
        (λ next. apply_options-FailsByValue next options)

  -- With an option that is not valid, the loop fails.
  refused :
      (builder : api.Builder) (options : List (Text × Text)) (option : Text × Text)
      → Occurs option options
      → IsRefused option
      → (e : RustytreeError) × ((apply_options api builder options ≡ err e)
          × (Error.PyErr.exception (to_py_err e) ≡ value_error))
  refused builder options option o bad =
      by_result (apply_options api builder options) refl
        (apply_options-FailsByValue builder options)
    where
      by_result :
          (r : Result api.Builder)
          → apply_options api builder options ≡ r
          → FailsByValue r
          → (e : RustytreeError) × ((r ≡ err e)
              × (Error.PyErr.exception (to_py_err e) ≡ value_error))
      by_result (err e) f h = (e, (refl, h))
      by_result (ok b) f h =
          absurd (
            bad
              (All-at IsValid option options ((apply_options_iff api builder options).0 (b, f)) o))

module _ {V : Type 0} (platform : Platform V) (crates : Crates V) where
  -- For every text that is an S3 URL, and storage options that convert, one of which has an unknown
  -- key, or no Boolean word for `allow_http`, `skip_signature` or `anon`; with a `HashMap` that gives
  -- each of its entries in whatever order, any other arguments and any fuel: `open_datatree` raises
  -- a `ValueError`, whatever the object store answers.
  pub open_datatree-IsRefused :
      (fuel : ℕ) (source : PySource) (args : Arguments) (path bucket prefix : Text)
      (options : List (Text × Text)) (option : Text × Text)
      → source.as_bytes ≡ none
      → source.as_string ≡ some path
      → parse_store_spec path ≡ ok (s3 bucket prefix)
      → options_or_default args.storage_options ≡ Read.ok options
      → GivesAll crates
      → Occurs option options
      → IsRefused option
      → Raises value_error (open_datatree platform crates fuel source args)
  unfolding open_datatree parse_arguments open_source build_vanilla_s3
  open_datatree-IsRefused fuel source args path bucket prefix options option no_bytes text parsed
        given order o bad =
      let (e, (f, g)) =
        refused crates.api (crates.api.with_url (s3_url bucket prefix) crates.api.from_env)
          (crates.hash_order options) option (order options option o) bad in
      (to_py_err e, (rw (no_bytes, text, parsed, given, f) refl, g))
