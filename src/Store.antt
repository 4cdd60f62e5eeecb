-- ===== src/Store.antt =====
-- src/store.rs and src/icechunk_store.rs: from a path, a URL or session bytes to a store. What the
-- file system, icechunk and the object store answer is a parameter, a `Backends`.
pub mod Laws
pub mod Handle
pub mod Getters
pub mod Sample
mod Tests
use rustytree.Prelude.{
  ℕ, Bool, true, false, ◌&&◌, if◌then◌else◌, Option, none, some, List, [], ◌∷◌, ◌++◌, Text, codes,
  text_eq,
}
use mathlib.Core.Option.{get_or}
use rustytree.Error.{
  RustytreeError, io, invalid_input, icechunk_session, other, Result, ok, err, ◌>>=◌,
}
use rustytree.Zarrs.{Fallible, good, bad, map_err, Storage}
use rustytree.Walk.Snapshot.{Upstream}
use rustytree.Walk.Recursive.{WalkSource, icechunk, vanilla}

-- `AmazonS3Builder`, by the methods that are called.
pub record S3Api (V : Type 0) : Type 1 where
  pub Builder : Type 0
  pub from_env : Builder
  pub with_url : Text → Builder → Builder
  pub with_region : Text → Builder → Builder
  pub with_endpoint : Text → Builder → Builder
  pub with_access_key_id : Text → Builder → Builder
  pub with_secret_access_key : Text → Builder → Builder
  pub with_token : Text → Builder → Builder
  pub with_allow_http : Bool → Builder → Builder
  pub with_skip_signature : Bool → Builder → Builder
  pub build : Builder → Fallible (Storage V)
  -- `{:?}` of a text.
  pub debug : Text → Text

-- An option of text value, one of Boolean value, or no option of this name.
pub data S3Option : Type 0 where
  region endpoint access_key_id secret_access_key session_token : S3Option
  allow_http skip_signature : S3Option
  unknown : S3Option

-- The arms of `match key`.
abbrev pub arms : List (Text × S3Option)
arms =
    (codes "region", region)
    ∷ (codes "endpoint", endpoint)
    ∷ (codes "access_key_id", access_key_id)
    ∷ (codes "secret_access_key", secret_access_key)
    ∷ (codes "session_token", session_token)
    ∷ (codes "allow_http", allow_http)
    ∷ (codes "skip_signature", skip_signature)
    ∷ (codes "anon", skip_signature)
    ∷ []

-- The first arm that matches.
unfoldable pub find_arm : Text → List (Text × S3Option) → S3Option
find_arm key [] = unknown
find_arm key ((name, option) ∷ rest) = if text_eq key name then option else find_arm key rest

unfoldable pub option_of : Text → S3Option
option_of key = find_arm key arms

-- Whether a text is one of the words.
unfoldable pub one_of : Text → List Text → Bool
one_of t [] = false
one_of t (word ∷ words) = if text_eq t word then true else one_of t words

abbrev pub true_words : List Text
true_words = codes "true" ∷ codes "True" ∷ codes "1" ∷ codes "yes" ∷ []

abbrev pub false_words : List Text
false_words = codes "false" ∷ codes "False" ∷ codes "0" ∷ codes "no" ∷ []

module _ {V : Type 0} (api : S3Api V) where
  -- The closure `bool_opt`
  unfoldable pub bool_opt : Text → Text → Result Bool
  bool_opt key value =
      if one_of value true_words
      then ok true
      else if one_of value false_words
      then ok false
      else err (
          invalid_input (
            codes "s3 storage option `"
            ++ (key ++ (codes "` expects a boolean, got " ++ api.debug value))))

  abbrev pub apply_option : S3Option → Text → Text → api.Builder → Result api.Builder
  apply_option region key value builder = ok (api.with_region value builder)
  apply_option endpoint key value builder = ok (api.with_endpoint value builder)
  apply_option access_key_id key value builder = ok (api.with_access_key_id value builder)
  apply_option secret_access_key key value builder = ok (api.with_secret_access_key value builder)
  apply_option session_token key value builder = ok (api.with_token value builder)
  apply_option allow_http key value builder = do
    b ← bool_opt key value
    ok (api.with_allow_http b builder)
  apply_option skip_signature key value builder = do
    b ← bool_opt key value
    ok (api.with_skip_signature b builder)
  apply_option unknown key value builder =
      err (invalid_input (codes "unknown s3 storage option: `" ++ (key ++ codes "`")))

  unfoldable pub apply_s3_option : api.Builder → Text → Text → Result api.Builder
  apply_s3_option builder key value = apply_option (option_of key) key value builder

  -- `for (key, value) in options`, in the order in which the `HashMap` gives them.
  unfoldable pub apply_options : api.Builder → List (Text × Text) → Result api.Builder
  apply_options builder [] = ok builder
  apply_options builder ((key, value) ∷ options) =
      apply_s3_option builder key value >>= λ next. apply_options next options

-- The `url` of `build_vanilla_s3`.
unfoldable pub s3_url : Text → Text → Text
s3_url bucket [] = codes "s3://" ++ bucket
s3_url bucket (c ∷ prefix) = codes "s3://" ++ (bucket ++ (codes "/" ++ (c ∷ prefix)))

unfoldable pub build_vanilla_s3 :
    {V : Type 0} → S3Api V → Text → Text → List (Text × Text) → Result (Storage V)
build_vanilla_s3 api bucket prefix options = do
  builder ← apply_options api (api.with_url (s3_url bucket prefix) api.from_env) options
  map_err
      (λ e.
        other
          (codes "failed to build S3 store for " ++ (s3_url bucket prefix ++ (codes ": " ++ e))))
      (api.build builder)

-- The file system and icechunk: `is_file` and `is_dir` below a path, `LocalFileSystem`, the three
-- steps that open a session on a branch, and `Session::from_bytes`.
pub record Backends (V : Type 0) : Type 1 where
  pub is_file : Text → Text → Bool
  pub is_dir : Text → Text → Bool
  pub local_file_system : Text → Fallible (Storage V)
  pub IceStorage : Type 0
  pub Repository : Type 0
  pub Session : Type 0
  pub local_storage : Text → Fallible IceStorage
  pub open_repository : IceStorage → Fallible Repository
  pub readonly_session : Repository → Text → Fallible Session
  pub from_bytes : List ℕ → Fallible Session
  -- `AsyncIcechunkStore::new`, and what its session answers to the walk.
  pub session_store : Session → Storage V
  pub session_answers : Session → Upstream V

-- `ReopenSpec`
pub data ReopenSpec : Type 0 where
  session_bytes : List ℕ → ReopenSpec

module _ {V : Type 0} (backends : Backends V) where
  unfoldable pub looks_like_icechunk_repo : Text → Bool
  looks_like_icechunk_repo path =
      backends.is_file path (codes "repo") && backends.is_dir path (codes "snapshots")

  unfoldable pub open_local_icechunk : Text → Text → Result backends.Session
  open_local_icechunk path branch = do
    storage ←
        map_err
          (λ e. other (
            codes "icechunk: failed to open local-filesystem storage at "
            ++ (path ++ (codes ": " ++ e))))
          (backends.local_storage path)
    repo ←
        map_err
          (λ e.
            other (codes "icechunk: failed to open repository at " ++ (path ++ (codes ": " ++ e))))
          (backends.open_repository storage)
    map_err
        (λ e. other (
          codes "icechunk: failed to open readonly session on branch "
          ++ (branch ++ (codes " at " ++ (path ++ (codes ": " ++ e))))))
        (backends.readonly_session repo branch)

  unfoldable pub build_vanilla_local : Text → Result (Storage V)
  build_vanilla_local path =
      map_err (λ e. io (codes "failed to open local filesystem at " ++ (path ++ (codes ": " ++ e))))
        (backends.local_file_system path)

  unfoldable pub bundle_from_session_bytes : List ℕ → Result backends.Session
  bundle_from_session_bytes bytes = map_err icechunk_session (backends.from_bytes bytes)

  unfoldable pub build_local_store : Text → Option Text → Result (WalkSource V)
  build_local_store path branch =
      if looks_like_icechunk_repo path
      then open_local_icechunk path (get_or branch (codes "main"))
        >>= (λ session. ok (icechunk (backends.session_answers session)))
      else (build_vanilla_local path >>= λ store. ok (vanilla store))

  -- `build_store_from_spec`, with the store of the session that `into_store` gives.
  unfoldable pub build_store_from_spec : ReopenSpec → Result (WalkSource V × Storage V)
  build_store_from_spec (session_bytes bytes) = do
    session ← bundle_from_session_bytes bytes
    ok (icechunk (backends.session_answers session), backends.session_store session)
