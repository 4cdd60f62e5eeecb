-- ===== src/Python/Sample.antt =====
-- A platform, crates, sources and arguments for the tests.
use rustytree.Prelude.{
  Text, ℕ, ◌≡◌, ◌*◌, refl, sym, subst, ap, false, ltb, if◌then◌else◌, Option, none, some, List, [],
  ◌∷◌, length, codes, arith, strip_prefix, contains,
}
use rustytree.Error
use rustytree.Error.{value_error, key_error, runtime_error}
use rustytree.Json.{Number, positive, negative, float}
use rustytree.Zarrs.{good}
use rustytree.Array.Read.{ok}
use rustytree.Url.{parse_store_spec, local}
use rustytree.Python.Opened.{StoreIsComplete}
use rustytree.Walk.Sample.{sample, x_array, session, int16_names}
use rustytree.Store.{looks_like_icechunk_repo}
use rustytree.Store.Sample.{backends, api}
use rustytree.Python.Object.{ℤ, pos, negsuc, Platform}
use rustytree.Python.Values.{ReadsNumbers}
use rustytree.Python.Fetched.{Reshapes, IsComplete}
use rustytree.Python.Session.{CompleteArrays}
use rustytree.Python.Stores.{OpensStore}
use rustytree.Python.Open.{PySource, Arguments, Crates}

abbrev as_i64 : Number → Option ℤ
as_i64 (positive n) = if ltb n 9_223_372_036_854_775_808 then some (pos n) else none
as_i64 (negative n) = some (negsuc n)
as_i64 (float b) = none

abbrev as_u64 : Number → Option ℕ
as_u64 (positive n) = some n
as_u64 _ = none

abbrev as_f64 : Number → Option ℕ
as_f64 (float b) = some b
as_f64 _ = none

abbrev pub platform : Platform ℕ
platform = record {
  as_i64 = as_i64;
  as_u64 = as_u64;
  as_f64 = as_f64;
  number_text = λ n. [];
  reshape = λ flat shape. ok (record { flat = flat; shape = shape });
}

pub platform-ReadsNumbers : ReadsNumbers platform
platform-ReadsNumbers = record {
  small = λ n h. ground arith;
  large = λ n h. ground arith;
  unsigned = λ n. refl;
  below = λ n. refl;
  float_i64 = λ b. refl;
  float_u64 = λ b. refl;
  float_f64 = λ b. refl;
}

pub platform-Reshapes : Reshapes platform
platform-Reshapes flat shape h = refl

pub x_array-IsComplete : IsComplete x_array
x_array-IsComplete = record { of_numbers = λ t v e. two v e; of_strings = λ v e. cc }
  where
    two : (v : List ℕ) → good (7 ∷ 8 ∷ []) ≡ good v → length v ≡ 2 * 1
    two v e = let same : 7 ∷ 8 ∷ [] ≡ v = cc in ap length (sym same)

abbrev pub crates : Crates ℕ
crates = record {
  zarrs = int16_names;
  race = λ e es. e;
  backends = backends;
  api = api;
  hash_order = λ options. options;
}

abbrev pub bytes_source : PySource
bytes_source = record { as_bytes = some (5 ∷ []); as_string = none }

abbrev pub path_source : PySource
path_source = record { as_bytes = none; as_string = some (codes "/data") }

-- The other arguments, all of them left out but the group.
abbrev pub at_group : Option Text → Arguments
at_group group = record {
  group = group;
  branch = none;
  storage_options = none;
  max_concurrency = none;
  recursive = none;
  glob = none;
}

abbrev pub args : Arguments
args = at_group none

pub session-CompleteArrays : CompleteArrays session int16_names
session-CompleteArrays path metadata found e =
    let same : x_array ≡ found = cc in subst IsComplete same x_array-IsComplete

pub data_parses : parse_store_spec (codes "/data") ≡ Error.ok (local (codes "/data"))
unfolding parse_store_spec strip_prefix contains
data_parses = refl

pub data_is_plain : looks_like_icechunk_repo backends (codes "/data") ≡ false
unfolding looks_like_icechunk_repo
data_is_plain = refl

pub sample-StoreIsComplete : StoreIsComplete int16_names crates.race sample
unfolding sample
sample-StoreIsComplete path found e =
    let same : x_array ≡ found = cc in subst IsComplete same x_array-IsComplete

-- The path opens as the sample store, whatever group is asked for.
pub sample-OpensStore :
    (group : Option Text) → OpensStore crates path_source (at_group group) sample
sample-OpensStore group =
    (codes "/data", local (codes "/data"), [], refl, refl, data_parses, refl, (data_is_plain, refl))
