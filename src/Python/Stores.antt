-- ===== src/Python/Stores.antt =====
-- Sources of `open_datatree` of src/lib.rs that are vanilla stores.
use rustytree.Prelude.{ℕ, ◌≡◌, refl, false, Option, none, some, List, Text}
use rustytree.Error
use rustytree.Zarrs.{good, Storage}
use rustytree.Array.Read.{ok}
use rustytree.Url.{StoreSpec, local, s3, parse_store_spec}
use rustytree.Walk.Recursive.{vanilla}
use rustytree.Store.{
  looks_like_icechunk_repo, build_local_store, build_vanilla_local, build_vanilla_s3,
}
use rustytree.Python.Object.{Platform}
use rustytree.Python.Open.{
  PySource, Arguments, Crates, options_or_default, open_source, parse_arguments, to_python, walk,
  open_datatree,
}

module _ {V : Type 0} (crates : Crates V) where
  -- A local directory that is no icechunk repository and opens as the store, or a bucket for which
  -- the builder with the options gives it.
  abbrev pub OpensVanilla : StoreSpec → List (Text × Text) → Storage V → Type 0
  OpensVanilla (local p) options store =
      (looks_like_icechunk_repo crates.backends p ≡ false)
      × (crates.backends.local_file_system p ≡ good store)
  OpensVanilla (s3 bucket prefix) options store =
      build_vanilla_s3 crates.api bucket prefix (crates.hash_order options) ≡ Error.ok store

  -- A text that parses to the name of such a store, with storage options that convert.
  abbrev pub OpensStore : PySource → Arguments → Storage V → Type 0
  OpensStore source args store =
      (path : Text) × (spec : StoreSpec) × (options : List (Text × Text)) × (source.as_bytes ≡ none)
      × (source.as_string ≡ some path)
      × (parse_store_spec path ≡ Error.ok spec)
      × (options_or_default args.storage_options ≡ ok options)
      × OpensVanilla spec options store

  open_source-vanilla :
      (platform : Platform V) (fuel : ℕ) (spec : StoreSpec) (branch : Option Text)
      (options : List (Text × Text)) (store : Storage V)
      → OpensVanilla spec options store
      → open_source platform crates fuel spec branch options ≡ Error.ok (vanilla store)
  unfolding open_source build_local_store build_vanilla_local
  open_source-vanilla platform fuel (local p) branch options store (plain, opens) =
      rw (plain, opens) refl
  open_source-vanilla platform fuel (s3 bucket prefix) branch options store built = rw built refl

  -- `open_datatree` walks the store.
  pub open_datatree-walk :
      (platform : Platform V) (fuel : ℕ) (source : PySource) (args : Arguments) (store : Storage V)
      → OpensStore source args store
      → open_datatree platform crates fuel source args
        ≡ to_python platform crates fuel none
            (walk platform crates fuel args (Error.ok (vanilla store)))
  unfolding open_datatree parse_arguments
  open_datatree-walk platform fuel source args store
        (path, spec, options, no_bytes, text, parsed, given, opens) =
      rw
        (
          no_bytes,
          text,
          parsed,
          given,
          open_source-vanilla platform fuel spec args.branch options store opens,
        )
        refl
