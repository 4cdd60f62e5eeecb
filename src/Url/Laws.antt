-- ===== src/Url/Laws.antt =====
-- The shape of a parsed specification, and URLs of one.
use rustytree.Prelude.{
  ◌≡◌, ◌≢◌, refl, ◌∙◌, ap, Option, none, some, Option-cases, Bool-cases, inl, inr, [], ◌∷◌, ◌++◌,
  Text, codes, NoByte, NotFirst, NotLast, FirstLacks, split_once-join, split_once-none,
  split_once-FirstLacks, split_once, strip_prefix, contains, trim_start, trim_end,
  trim_start-NotFirst, trim_start_id, trim_end-NotLast, trim_end-NotFirst, trim_end_id,
}
use mathlib.Core.Option.{get_or}
use rustytree.Error.{Result, ok, err, invalid_input}
use rustytree.Url.{
  StoreSpec, local, s3, slash, s3_spec, bucket_and_prefix, unsupported_scheme, parse_store_spec,
}

-- A bucket with a name and no separator in it, and a prefix with none at either end.
pub record IsNormal (bucket prefix : Text) : Type 0 where
  pub named : bucket ≢ []
  pub no_slash : NoByte slash bucket
  pub first : NotFirst slash prefix
  pub last : NotLast slash prefix

bucket-NoByte : (rest : Text) → NoByte slash (bucket_and_prefix rest).0
unfolding bucket_and_prefix
bucket-NoByte rest = bucket_lacks (split_once (codes "/") rest) (split_once-FirstLacks slash rest)
  where
    bucket_lacks :
        (o : Option (Text × Text)) → FirstLacks slash o rest → NoByte slash (get_or o (rest, [])).0
    bucket_lacks none h = h
    bucket_lacks (some _) h = h

-- An S3 specification is normal, and every refusal is one of bad input.
abbrev pub IsNormalSpec : Result StoreSpec → Type 0
IsNormalSpec (ok (local path)) = Unit
IsNormalSpec (ok (s3 bucket prefix)) = IsNormal bucket prefix
IsNormalSpec (err (invalid_input what)) = Unit
IsNormalSpec (err _) = ⊥

s3_spec-IsNormalSpec :
    (input bucket prefix : Text) → NoByte slash bucket → IsNormalSpec (s3_spec input bucket prefix)
unfolding s3_spec
s3_spec-IsNormalSpec input [] prefix h = tt
s3_spec-IsNormalSpec input (c ∷ b) prefix h = record {
  named = λ e. cc;
  no_slash = h;
  first = trim_end-NotFirst slash (trim_start slash prefix) (trim_start-NotFirst slash prefix);
  last = trim_end-NotLast slash (trim_start slash prefix);
}

-- For every input: if it parses to an S3 specification, the bucket has a name and no separator in
-- it, and the prefix neither begins nor ends with a separator; if it is refused, the error is one
-- of bad input.
pub parse_store_spec-IsNormalSpec : (input : Text) → IsNormalSpec (parse_store_spec input)
unfolding parse_store_spec
parse_store_spec-IsNormalSpec input = elim (Option-cases (strip_prefix (codes "file://") input)) [
  | inr (rest, e) ↦ rw e tt
  | inl e ↦ elim (Option-cases (strip_prefix (codes "s3://") input)) [
    | inr (rest, f) ↦
        rw (e, f)
          (s3_spec-IsNormalSpec input (bucket_and_prefix rest).0 (bucket_and_prefix rest).1
            (bucket-NoByte rest))
    | inl f ↦ elim (Bool-cases (contains (codes "://") input)) [
      | inl g ↦ rw (e, f, g) (unfold unsupported_scheme in tt)
      | inr g ↦ rw (e, f, g) tt
    ]
  ]
]

-- A normal pair passes the checks of the `s3://` branch unchanged.
s3_spec_id : (input b p : Text) → IsNormal b p → s3_spec input b p ≡ ok (s3 b p)
unfolding s3_spec
s3_spec_id input [] p n = absurd (n.named refl)
s3_spec_id input (c ∷ b) p n =
    ap (λ t. ok (s3 (c ∷ b) t))
      (ap (trim_end slash) (trim_start_id slash p n.first) ∙ trim_end_id slash p n.last)

-- What stands behind `s3://`: the bucket, and the prefix behind a separator if there is one.
abbrev pub s3_location : Text → Text → Text
s3_location bucket [] = bucket
s3_location bucket (c ∷ prefix) = bucket ++ (slash ∷ (c ∷ prefix))

bucket_and_prefix-s3_location :
    (b p : Text) → NoByte slash b → bucket_and_prefix (s3_location b p) ≡ (b, p)
unfolding bucket_and_prefix
bucket_and_prefix-s3_location b [] h = rw (split_once-none slash b h)
bucket_and_prefix-s3_location b (c ∷ p) h = rw (split_once-join slash b (c ∷ p) h)

-- A URL of a normal pair parses to that pair.
pub parse-s3_location :
    (b p : Text) → IsNormal b p → parse_store_spec (codes "s3://" ++ s3_location b p) ≡ ok (s3 b p)
unfolding parse_store_spec strip_prefix
parse-s3_location b p n =
    rw (bucket_and_prefix-s3_location b p n.no_slash)
      (s3_spec_id (codes "s3://" ++ s3_location b p) b p n)
