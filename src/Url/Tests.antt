-- ===== src/Url/Tests.antt =====
-- The inputs of the tests of src/url.rs.
use rustytree.Prelude.{◌≡◌, refl, codes}
use rustytree.Error.{ok, err, invalid_input}
use rustytree.Url.{local, s3, parse_store_spec}
use rustytree.Url.Laws.{IsNormalSpec, parse_store_spec-IsNormalSpec}

s3_with_prefix :
    parse_store_spec (codes "s3://nexrad-arco//KLOT/")
    ≡ ok (s3 (codes "nexrad-arco") (codes "KLOT"))
unfolding parse_store_spec
s3_with_prefix = refl

file_url : parse_store_spec (codes "file:///tmp/a.zarr") ≡ ok (local (codes "/tmp/a.zarr"))
unfolding parse_store_spec
file_url = refl

no_bucket :
    parse_store_spec (codes "s3:///p")
    ≡ err (invalid_input (codes "s3 URL is missing a bucket name: s3:///p"))
unfolding parse_store_spec
no_bucket = refl

parse_store_spec-IsNormalSpec_example : IsNormalSpec (parse_store_spec (codes "s3://b//p/"))
parse_store_spec-IsNormalSpec_example = parse_store_spec-IsNormalSpec (codes "s3://b//p/")
