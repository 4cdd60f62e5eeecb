-- ===== src/Python/Open.antt =====
-- `open_datatree` of src/lib.rs, and the options that it takes.
use rustytree.Prelude.{
  ℕ, Bool, true, if◌then◌else◌, Option, none, some, List, [], ◌∷◌, Text, codes, text_eq,
}
use mathlib.Core.Option
use mathlib.Core.Option.{get_or}
use rustytree.Error.{Result, ok, err, ◌>>=◌, PyErr}
use rustytree.Glob.{parse}
use rustytree.Url.{StoreSpec, local, s3, parse_store_spec}
use rustytree.Array.Dtype.{DtypeNames}
use rustytree.Array.Read
use rustytree.Array.Read.{PyResult, raise, panic}
use rustytree.Walk.Join.{Race}
use rustytree.Walk.Recursive.{WalkSource, vanilla, Outcome, done, walk_recursive}
use rustytree.Store.{
  S3Api, Backends, ReopenSpec, session_bytes, build_vanilla_s3, build_local_store,
  build_store_from_spec,
}
use rustytree.Store.Handle.{value_err, into_py}
use rustytree.Python.Object.{PyFields, Platform}
use rustytree.Python.Convert.{nodes_to_pydict}

-- The argument `source`, by `cast::<PyBytes>` and `extract::<String>`.
pub record PySource : Type 0 where
  pub as_bytes : Option (List ℕ)
  pub as_string : Option Text

-- An entry of the dict of options: `key.extract()`, and `value.str()?.extract()`.
pub record PyOption : Type 0 where
  pub key : PyResult Text
  pub value : PyResult Text

-- The other arguments.
pub record Arguments : Type 0 where
  pub group : Option Text
  pub branch : Option Text
  pub storage_options : Option (List PyOption)
  pub max_concurrency : Option ℕ
  pub recursive : Option Bool
  pub glob : Option Text

-- What Python gets, or a walk that is still going on when the fuel ends.
pub data PyOutcome (V : Type 0) : Type 0 where
  returned : PyResult (PyFields V) → PyOutcome V
  out_of_fuel : PyOutcome V

-- `HashMap::insert`, on a list of entries.
unfoldable pub insert_option : Text → Text → List (Text × Text) → List (Text × Text)
insert_option key value [] = (key, value) ∷ []
insert_option key value ((k, v) ∷ m) =
    if text_eq k key then (k, value) ∷ m else (k, v) ∷ insert_option key value m

-- `parse_storage_options`, from the map that is filled so far.
unfoldable pub options_into : List PyOption → List (Text × Text) → PyResult (List (Text × Text))
options_into [] out = Read.ok out
options_into (entry ∷ dict) out =
    Read.◌>>=◌ entry.key
      (λ key. Read.◌>>=◌ entry.value (λ value. options_into dict (insert_option key value out)))

unfoldable pub parse_storage_options : List PyOption → PyResult (List (Text × Text))
parse_storage_options dict = options_into dict []

-- `storage_options.map(…).transpose()?.unwrap_or_default()`
abbrev pub options_or_default : Option (List PyOption) → PyResult (List (Text × Text))
options_or_default none = Read.ok []
options_or_default (some dict) = parse_storage_options dict

abbrev pub unsupported_type : PyErr
unsupported_type = value_err (
    codes
      "rustytree.open_datatree: `source` must be either `bytes` (icechunk session) or `str`/`Path` (URL or local path); got an object of an unsupported type")

abbrev pub or_unsupported : Option Text → PyResult Text
or_unsupported (some path) = Read.ok path
or_unsupported none = raise unsupported_type

-- The crates below: the names of data types, the scheduler, the stores, and the order in which a
-- `HashMap` gives its entries.
pub record Crates (V : Type 0) : Type 1 where
  pub zarrs : DtypeNames
  pub race : Race
  pub backends : Backends V
  pub api : S3Api V
  pub hash_order : List (Text × Text) → List (Text × Text)

module _ {V : Type 0} (platform : Platform V) (crates : Crates V) (fuel : ℕ) where
  -- `nodes_to_pydict` of the nodes, after `?`.
  abbrev pub to_python : Option ReopenSpec → Outcome V → PyOutcome V
  to_python spec (done r) = returned (Read.◌>>=◌ (into_py r) (nodes_to_pydict platform spec))
  to_python spec Outcome.out_of_fuel = PyOutcome.out_of_fuel
  to_python spec Outcome.panic = returned PyResult.panic

  -- The walk of a source that opened.
  abbrev pub walk : Arguments → Result (WalkSource V) → Outcome V
  walk args (err e) = done (err e)
  walk args (ok source) =
      walk_recursive crates.zarrs crates.race source fuel (get_or args.group (codes "/"))
        args.max_concurrency (get_or args.recursive true) (Option.map parse args.glob)

  -- The store of a path or URL.
  unfoldable pub open_source : StoreSpec → Option Text → List (Text × Text) → Result (WalkSource V)
  open_source (local p) branch options = build_local_store crates.backends p branch
  open_source (s3 bucket prefix) branch options =
      build_vanilla_s3 crates.api bucket prefix (crates.hash_order options) >>= λ store.
      ok (vanilla store)

  -- The arm for session bytes.
  unfoldable pub open_session : List ℕ → Arguments → PyOutcome V
  open_session bytes args =
      let spec = session_bytes bytes in
      to_python (some spec)
        (walk args (build_store_from_spec crates.backends spec >>= λ source. ok source.0))

  -- The arm for a path or a URL: its specification and its options, after `?`, and the walk.
  abbrev pub open_parsed : Arguments → PyResult (StoreSpec × List (Text × Text)) → PyOutcome V
  open_parsed args (Read.ok (spec, options)) =
      to_python none (walk args (open_source spec args.branch options))
  open_parsed args (raise e) = returned (raise e)
  open_parsed args PyResult.panic = returned PyResult.panic

  unfoldable pub parse_arguments :
      Option Text → Arguments → PyResult (StoreSpec × List (Text × Text))
  parse_arguments source args = Read.◌>>=◌ (or_unsupported source) (λ path.
      Read.◌>>=◌ (into_py (parse_store_spec path)) (λ spec.
        Read.◌>>=◌ (options_or_default args.storage_options) (λ options. Read.ok (spec, options))))

  -- The two arms, by what `cast::<PyBytes>` gives.
  abbrev pub open_as : Option (List ℕ) → Option Text → Arguments → PyOutcome V
  open_as (some bytes) as_string args = open_session bytes args
  open_as none as_string args = open_parsed args (parse_arguments as_string args)

  unfoldable pub open_datatree : PySource → Arguments → PyOutcome V
  open_datatree source args = open_as source.as_bytes source.as_string args
