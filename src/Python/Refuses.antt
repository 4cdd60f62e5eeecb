-- ===== src/Python/Refuses.antt =====
-- The errors of `open_datatree` of src/lib.rs.
use rustytree.Prelude.{
  ℕ, suc, ◌≡◌, refl, ◌∙◌, subst, ◌⊎◌, inl, inr, true, none, some, List, Text, codes,
}
use mathlib.Core.Option
use mathlib.Core.Option.{get_or}
use rustytree.Error
use rustytree.Error.{
  RustytreeError, io, not_found, invalid_input, icechunk_session, other, Result, PyErr, value_error,
  key_error, runtime_error, to_py_err,
}
use rustytree.Glob.{parse}
use rustytree.Url.{local, parse_store_spec}
use rustytree.Url.Laws.{IsNormalSpec, parse_store_spec-IsNormalSpec}
use rustytree.Zarrs.{good, bad, Storage, missing_metadata, not_opened}
use rustytree.Array.Read.{ok, raise}
use rustytree.Store.{
  Backends, build_store_from_spec, bundle_from_session_bytes, looks_like_icechunk_repo,
  build_local_store, open_local_icechunk,
}
use rustytree.Walk.Recursive.Limit.{IsAllowed}
use rustytree.Walk.Recursive.Laws.{Picks, walk_recursive-missing}
use rustytree.Python.Object.{Platform}
use rustytree.Python.Stores.{OpensStore, open_datatree-walk}
use rustytree.Python.Open.{
  PySource, Arguments, PyOutcome, returned, Crates, options_or_default, open_source,
  parse_arguments, open_datatree, open_session, unsupported_type,
}

-- Python gets an exception of the class.
abbrev pub Raises : {V : Type 0} → Error.Exception → PyOutcome V → Type 0
Raises exception o =
    (e : PyErr) × ((o ≡ returned (raise e)) × (Error.PyErr.exception e ≡ exception))

-- A source that names no store: bytes that icechunk does not read, a text that does not parse, or
-- an object of another type.
abbrev pub NamesNoStore : {V : Type 0} → Backends V → PySource → Type 0
NamesNoStore backends source =
    ((bytes : List ℕ) × (e : Text) × (source.as_bytes ≡ some bytes)
      × (backends.from_bytes bytes ≡ bad e))
    ⊎ (((source.as_bytes ≡ none) × (source.as_string ≡ none))
        ⊎ ((path : Text) × (e : RustytreeError) × (source.as_bytes ≡ none)
            × (source.as_string ≡ some path)
            × (parse_store_spec path ≡ Error.err e)))

-- A local directory in which icechunk opens no session on a branch: its storage, its repository, or
-- the branch does not open.
abbrev pub HasNoSession : {V : Type 0} → Backends V → Text → Text → Type 0
HasNoSession backends path branch =
    ((e : Text) × (backends.local_storage path ≡ bad e))
    ⊎ (((storage : backends.IceStorage) × (e : Text) × (backends.local_storage path ≡ good storage)
          × (backends.open_repository storage ≡ bad e))
        ⊎ ((storage : backends.IceStorage) × (repo : backends.Repository) × (e : Text)
            × (backends.local_storage path ≡ good storage)
            × (backends.open_repository storage ≡ good repo)
            × (backends.readonly_session repo branch ≡ bad e)))

abbrev FailsAsOther {ℓ} : {A : Type ℓ} → Result A → Type 0
FailsAsOther (Error.err (other e)) = Unit
FailsAsOther _ = ⊥

FailsAsOther-other {ℓ} :
    {A : Type ℓ} (r : Result A) → FailsAsOther r → (e : Text) × (r ≡ Error.err (other e))
FailsAsOther-other (Error.err (other e)) h = (e, refl)
FailsAsOther-other (Error.err (io e)) h = absurd h
FailsAsOther-other (Error.err (not_found e)) h = absurd h
FailsAsOther-other (Error.err (invalid_input e)) h = absurd h
FailsAsOther-other (Error.err (icechunk_session e)) h = absurd h
FailsAsOther-other (Error.ok a) h = absurd h

open_local_icechunk-FailsAsOther :
    {V : Type 0} (backends : Backends V) (path branch : Text)
    → HasNoSession backends path branch
    → FailsAsOther (open_local_icechunk backends path branch)
unfolding open_local_icechunk
open_local_icechunk-FailsAsOther backends path branch (inl (e, a)) = rw a tt
open_local_icechunk-FailsAsOther backends path branch (inr (inl (storage, e, a, b))) = rw (a, b) tt
open_local_icechunk-FailsAsOther backends path branch (inr (inr (storage, repo, e, a, b, c))) =
    rw (a, b, c) tt

IsNormalSpec-value_error :
    (e : RustytreeError)
    → IsNormalSpec (Error.err e)
    → Error.PyErr.exception (to_py_err e) ≡ value_error
unfolding to_py_err
IsNormalSpec-value_error (invalid_input what) h = refl
IsNormalSpec-value_error (io e) h = absurd h
IsNormalSpec-value_error (not_found e) h = absurd h
IsNormalSpec-value_error (icechunk_session e) h = absurd h
IsNormalSpec-value_error (other e) h = absurd h

module _ {V : Type 0} (platform : Platform V) (crates : Crates V) where
  -- For every text that is the path of a local directory that is no icechunk repository, by itself
  -- or as a `file://` URL, or that is an S3 URL, and that opens as a vanilla store in which the
  -- requested group has no metadata; with storage options that convert, a `max_concurrency` of at most
  -- `2 ^ 61 - 1` or none, any other arguments, a scheduler that returns one of the errors of a
  -- failed join, and any fuel but none: `open_datatree` raises a `KeyError`.
  pub open_datatree-missing :
      (fuel : ℕ) (source : PySource) (args : Arguments) (store : Storage V)
      → Picks crates.race
      → IsAllowed args.max_concurrency
      → OpensStore crates source args store
      → store.open_group (get_or args.group (codes "/")) ≡ not_opened missing_metadata
      → Raises key_error (open_datatree platform crates (suc fuel) source args)
  open_datatree-missing fuel source args store picks allowed opens missing =
      let (e, (f, g)) =
        walk_recursive-missing crates.zarrs crates.race store fuel args.max_concurrency
          (get_or args.recursive true) (Option.map parse args.glob) (get_or args.group (codes "/"))
          picks allowed missing in
      (
        to_py_err e,
        (open_datatree-walk crates platform (suc fuel) source args store opens ∙ rw f refl, g),
      )

  -- For every source that names no store, since it is bytes that icechunk does not read, a text
  -- that does not parse, or an object that is neither bytes nor a text; with all arguments and any
  -- fuel: `open_datatree` raises a `ValueError`.
  pub open_datatree-NamesNoStore :
      (fuel : ℕ) (source : PySource) (args : Arguments)
      → NamesNoStore crates.backends source
      → Raises value_error (open_datatree platform crates fuel source args)
  unfolding open_datatree open_session parse_arguments build_store_from_spec
      bundle_from_session_bytes to_py_err
  open_datatree-NamesNoStore fuel source args (inl (bytes, e, is_bytes, refused)) =
      (to_py_err (icechunk_session e), (rw (is_bytes, refused) refl, refl))
  open_datatree-NamesNoStore fuel source args (inr (inl (no_bytes, no_text))) =
      (unsupported_type, (rw (no_bytes, no_text) refl, refl))
  open_datatree-NamesNoStore fuel source args (inr (inr (path, e, no_bytes, text, refused))) = (
    to_py_err e,
    (
      rw (no_bytes, text, refused) refl,
      IsNormalSpec-value_error e (subst IsNormalSpec refused (parse_store_spec-IsNormalSpec path)),
    ),
  )

  -- For every text that is the path of a local directory, by itself or as a `file://` URL, and that
  -- looks like an icechunk repository, in which icechunk opens no session on the branch that is
  -- named, or on `main`; with storage options that convert, any other arguments and any fuel:
  -- `open_datatree` raises a `RuntimeError`, and does not fall back to a vanilla store.
  pub open_datatree-HasNoSession :
      (fuel : ℕ) (source : PySource) (args : Arguments) (path p : Text)
      (options : List (Text × Text))
      → source.as_bytes ≡ none
      → source.as_string ≡ some path
      → parse_store_spec path ≡ Error.ok (local p)
      → options_or_default args.storage_options ≡ ok options
      → looks_like_icechunk_repo crates.backends p ≡ true
      → HasNoSession crates.backends p (get_or args.branch (codes "main"))
      → Raises runtime_error (open_datatree platform crates fuel source args)
  unfolding open_datatree parse_arguments open_source build_local_store to_py_err
  open_datatree-HasNoSession fuel source args path p options no_bytes text parsed given repository
        closed =
      let (e, f) = FailsAsOther-other _ (
        open_local_icechunk-FailsAsOther crates.backends p (get_or args.branch (codes "main"))
          closed) in
      (to_py_err (other e), (rw (no_bytes, text, parsed, given, repository, f) refl, refl))
