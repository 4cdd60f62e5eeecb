-- ===== src/Python/Tests/Sources.antt =====
-- Calls of `open_datatree` with sources of each kind: repositories, and sources that do not open.
use rustytree.Array.Read.{ok}
use rustytree.Url.{parse_store_spec, s3}
use rustytree.Store.Laws.{apply_options_iff}
use rustytree.Python.Options.{IsRefused, open_datatree-IsRefused}
use rustytree.Prelude.{
  arith, Text, ℕ, ◌≡◌, refl, inl, inr, true, none, some, [], ◌∷◌, codes, text_eq,
}
use rustytree.Error
use rustytree.Error.{value_error, key_error, runtime_error}
use rustytree.Zarrs.{missing_metadata, not_opened}
use rustytree.Walk.Recursive.Sample.{first-Picks}
use rustytree.Walk.Sample.{sample, int16_names}
use rustytree.Store.{
  apply_options, apply_s3_option, option_of, find_arm, looks_like_icechunk_repo,
  open_local_icechunk,
}
use rustytree.Store.Sample.{repositories, api}
use rustytree.Python.Repository.{without_specs, open_datatree-same_session}
use rustytree.Python.Refuses.{
  Raises, open_datatree-missing, open_datatree-NamesNoStore, open_datatree-HasNoSession,
}
use rustytree.Python.Open.{
  options_or_default, parse_storage_options, options_into, insert_option, PySource, Arguments,
  Crates, open_datatree,
}
use rustytree.Python.Sample.{
  at_group, sample-OpensStore, platform, crates, bytes_source, path_source, args, data_parses,
}

abbrev no_source : PySource
no_source = record { as_bytes = none; as_string = none }

abbrev missing_args : Arguments
missing_args = at_group (some (codes "/c"))

c_missing : sample.open_group (codes "/c") ≡ not_opened missing_metadata
unfolding sample text_eq
c_missing = refl

open_datatree-missing_example :
    Raises key_error (open_datatree platform crates 1 path_source missing_args)
open_datatree-missing_example =
    open_datatree-missing platform crates 0 path_source missing_args sample first-Picks
      (omega arith) (sample-OpensStore (some (codes "/c"))) c_missing

open_datatree-NamesNoStore_example :
    Raises value_error (open_datatree platform crates 0 no_source args)
open_datatree-NamesNoStore_example =
    open_datatree-NamesNoStore platform crates 0 no_source args (inr (inl (refl, refl)))

abbrev repo_crates : Crates ℕ
repo_crates = record {
  zarrs = int16_names;
  race = λ e es. e;
  backends = repositories;
  api = api;
  hash_order = λ options. options;
}

abbrev branch_args : Arguments
branch_args = record args { branch = some (codes "dev") }

data_is_repo : looks_like_icechunk_repo repositories (codes "/data") ≡ true
unfolding looks_like_icechunk_repo
data_is_repo = refl

main_opens : open_local_icechunk repositories (codes "/data") (codes "main") ≡ Error.ok (5 ∷ [])
unfolding open_local_icechunk text_eq
main_opens = refl

open_datatree-same_session_example :
    without_specs (open_datatree platform repo_crates 0 path_source args)
    ≡ without_specs (open_datatree platform repo_crates 0 bytes_source args)
open_datatree-same_session_example =
    open_datatree-same_session platform repo_crates 0 args path_source bytes_source (codes "/data")
      (codes "/data") [] (5 ∷ []) (5 ∷ []) refl refl data_parses refl data_is_repo main_opens refl
      refl

open_datatree-HasNoSession_example :
    Raises runtime_error (open_datatree platform repo_crates 0 path_source branch_args)
unfolding text_eq
open_datatree-HasNoSession_example =
    open_datatree-HasNoSession platform repo_crates 0 path_source branch_args (codes "/data")
      (codes "/data") [] refl refl data_parses refl data_is_repo
      (inr (inr (codes "/data", codes "/data", codes "no such branch", refl, refl, refl)))

abbrev misspelt : Text × Text
misspelt = (codes "regoin", codes "eu")

abbrev misspelt_args : Arguments
misspelt_args = record {
  group = none;
  branch = none;
  storage_options = some (record { key = ok misspelt.0; value = ok misspelt.1 } ∷ []);
  max_concurrency = none;
  recursive = none;
  glob = none;
}

abbrev bucket_source : PySource
bucket_source = record { as_bytes = none; as_string = some (codes "s3://b/p") }

bucket_parses : parse_store_spec (codes "s3://b/p") ≡ Error.ok (s3 (codes "b") (codes "p"))
unfolding parse_store_spec
bucket_parses = refl

misspelt_converts : options_or_default misspelt_args.storage_options ≡ ok (misspelt ∷ [])
unfolding parse_storage_options options_into insert_option
misspelt_converts = refl

misspelt-IsRefused : IsRefused misspelt
unfolding apply_options apply_s3_option option_of find_arm text_eq
misspelt-IsRefused v = let (b, e) = (apply_options_iff api 0 (misspelt ∷ [])).1 (v, tt) in cc

open_datatree-IsRefused_example :
    Raises value_error (open_datatree platform crates 0 bucket_source misspelt_args)
open_datatree-IsRefused_example =
    open_datatree-IsRefused platform crates 0 bucket_source misspelt_args (codes "s3://b/p")
      (codes "b") (codes "p") (misspelt ∷ []) misspelt refl refl bucket_parses misspelt_converts
      (λ options option o. o) (inl refl) misspelt-IsRefused
