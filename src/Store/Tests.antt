-- ===== src/Store/Tests.antt =====
-- Storage options, URLs and pickled handles on a store that opens one array.
use rustytree.Prelude.{decimal, ℕ, ◌≡◌, refl, ◌↔◌, some, List, [], ◌∷◌, codes, All, arith, text_eq}
use rustytree.Error.{ok, err, invalid_input}
use rustytree.Array.Read
use rustytree.Url.{parse_store_spec, s3}
use rustytree.Url.Laws.{IsNormal}
use rustytree.Zarrs.{good}
use rustytree.Walk.Recursive.{icechunk}
use rustytree.Walk.Sample.{sample, x_array, session}
use rustytree.Store.{
  one_of, find_arm, option_of, apply_s3_option, bool_opt, apply_options, s3_url, session_bytes,
  build_store_from_spec, bundle_from_session_bytes,
}
use rustytree.Store.Sample.{backends, api, msgpack, msgpack-RoundTrips}
use rustytree.Store.Laws.{Succeeds, IsValid, apply_options_iff, parse-s3_url}
use rustytree.Store.Getters.{repr}
use rustytree.Array.Dtype.{zarrs_dtype_to_numpy_str}
use rustytree.Array.Dtype.Sample.{v3_names}
use rustytree.Store.Handle.{ZarrsArrayHandle, reduce, reopen_array_handle, reopen-reduce}

abbrev handle : ZarrsArrayHandle ℕ
handle = record { array = x_array; spec = some (session_bytes (5 ∷ [])) }

built : build_store_from_spec backends (session_bytes (5 ∷ [])) ≡ ok (icechunk session, sample)
unfolding build_store_from_spec bundle_from_session_bytes
built = refl

repr_text : repr handle v3_names ≡ codes "ZarrsArrayHandle(shape=[2], dtype=int16)"
unfolding repr decimal zarrs_dtype_to_numpy_str
repr_text = refl

x_opened : sample.open_array (codes "/a/x") ≡ good x_array
unfolding sample
x_opened = refl

reopen-reduce_example :
    (state : List ℕ) × ((reduce msgpack handle ≡ Read.ok state)
      × (reopen_array_handle msgpack backends state ≡ Read.ok handle))
reopen-reduce_example =
    reopen-reduce msgpack backends handle (session_bytes (5 ∷ [])) (icechunk session) sample x_array
      msgpack-RoundTrips refl built x_opened

anonymous :
    apply_options api 0 ((codes "anon", codes "True") ∷ (codes "region", codes "eu") ∷ []) ≡ ok 2
unfolding apply_options apply_s3_option option_of find_arm text_eq bool_opt one_of
anonymous = refl

misspelt :
    apply_options api 0 ((codes "regoin", codes "eu") ∷ [])
    ≡ err (invalid_input (codes "unknown s3 storage option: `regoin`"))
unfolding apply_options apply_s3_option option_of find_arm text_eq
misspelt = refl

apply_options_iff_example :
    Succeeds (apply_options api 0 ((codes "anon", codes "maybe") ∷ []))
    ↔ All IsValid ((codes "anon", codes "maybe") ∷ [])
apply_options_iff_example = apply_options_iff api 0 ((codes "anon", codes "maybe") ∷ [])

b_a-IsNormal : IsNormal (codes "b") (codes "a")
b_a-IsNormal = record {
  named = λ e. cc;
  no_slash = ((λ e. omega arith), tt);
  first = λ e. omega arith;
  last = λ e. omega arith;
}

parse-s3_url_example :
    parse_store_spec (s3_url (codes "b") (codes "a")) ≡ ok (s3 (codes "b") (codes "a"))
parse-s3_url_example = parse-s3_url (codes "b") (codes "a") b_a-IsNormal
