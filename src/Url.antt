-- ===== src/Url.antt =====
-- src/url.rs: the parser of the `path` argument.
pub mod Laws
mod Tests
use package.rustytree.Prelude.{
  ℕ, Option, none, some, Bool, true, false, if◌then◌else◌, List, [], ◌∷◌, ◌++◌, Text, codes,
  strip_prefix, split_once, contains, trim_start, trim_end,
}
use package.rustytree.Error.{RustytreeError, invalid_input, Result, ok, err}
use mathlib.Core.Option.{get_or}

pub data StoreSpec : Type 0 where
  local : Text → StoreSpec
  s3 : Text → Text → StoreSpec

abbrev pub slash : ℕ
slash = b'/'

-- The two checks of the `s3://` branch, once the bucket and the prefix are apart.
pub s3_spec : Text → Text → Text → Result StoreSpec
unfolding trim_start trim_end
s3_spec input [] prefix = err (invalid_input (codes "s3 URL is missing a bucket name: " ++ input))
s3_spec input (c ∷ bucket) prefix = ok (s3 (c ∷ bucket) (trim_end slash (trim_start slash prefix)))

-- `rest.split_once('/').unwrap_or((rest, ""))`
pub bucket_and_prefix : Text → Text × Text
unfolding split_once
bucket_and_prefix rest = get_or (split_once (codes "/") rest) (rest, [])

pub unsupported_scheme : Text → RustytreeError
unfolding split_once
unsupported_scheme input =
    let scheme : Text = elim (split_once (codes "://") input) [ some (s, _) ↦ s | none ↦ [] ] in
    invalid_input (
      codes "unsupported URL scheme `"
      ++ (scheme
          ++ (codes "://` in "
              ++ (input ++ codes "; rustytree currently supports `file://` and `s3://` only"))))

-- `parse_store_spec`
unfoldable pub parse_store_spec : Text → Result StoreSpec
unfolding strip_prefix contains s3_spec bucket_and_prefix unsupported_scheme
parse_store_spec input = elim (strip_prefix (codes "file://") input) [
  | some rest ↦ ok (local rest)
  | none ↦ elim (strip_prefix (codes "s3://") input) [
    | some rest ↦ let (bucket, prefix) = bucket_and_prefix rest in s3_spec input bucket prefix
    | none ↦
        if contains (codes "://") input then err (unsupported_scheme input) else ok (local input)
  ]
]
