-- ===== src/Python/Tests.antt =====
-- Conversions and calls on the sample store and the sample session.
mod Sources
use rustytree.Prelude.{
  rsplit_once, ℕ, ◌≡◌, ◌≤◌, ◌≢◌, ◌*◌, refl, sym, subst, ap, inl, inr, ◌↔◌, true, false, ltb,
  if◌then◌else◌, Option, none, some, List, [], ◌∷◌, length, Text, codes, text_eq, Occurs, arith,
  strip_prefix, contains,
}
use rustytree.Error
use rustytree.Error.{value_error, key_error, runtime_error}
use rustytree.Json.{
  Json, number, text, array, object, Number, positive, negative, float, nil, cons, end, field,
}
use rustytree.Zarrs.{good, missing_metadata, not_opened}
use rustytree.Array.Dtype.{int32, p_i32, for_each_supported_dtype}
use rustytree.Array.Read.Sample.{cell, grid}
use rustytree.Array.Read.Laws.{slab}
use rustytree.Python.Lazy.{Contents, read_subset-fetch_all_elements}
use rustytree.Array.Read.{read_subset, ok}
use rustytree.Node.{e_i32, eager_from_vec}
use rustytree.Url.{parse_store_spec, local}
use rustytree.Walk.Eager.{whole, fetch_all_elements}
use rustytree.Walk.Recursive.Sample.{first-Picks, each_group-Opens}
use rustytree.Walk.Discover.{enters}
use rustytree.Walk.Discover.Spec.{visited, height}
use rustytree.Python.Opened.{StoreIsComplete}
use rustytree.Python.Vanilla.{open_datatree-visited}
use rustytree.Walk.Sample.{
  sample, snaps, session, int16_names, snaps_listed, snaps-ReadsAll, snaps-HaveParents, sample_tree,
  sample-Holds,
}
use rustytree.Walk.Snapshot.Spec.{kept_groups}
use rustytree.Walk.Snapshot.Laws.{Ascending}
use rustytree.Store.{looks_like_icechunk_repo, open_local_icechunk}
use rustytree.Store.Sample.{backends, repositories, api, msgpack, msgpack-RoundTrips}
use rustytree.Python.Object.{ℤ, pos, negsuc, PyAny, PyFields, Platform}
use rustytree.Python.Convert.{flat_array, json_to_py}
use rustytree.Python.Values.{ReadsNumbers, read, HasDistinctKeys, read-json_to_py}
use rustytree.Python.Complete.{entry_keys}
use rustytree.Python.Fetched.{Reshapes, IsComplete}
use rustytree.Python.Session.{CompleteArrays}
use rustytree.Python.Groups.{IsGroup, EachEntry}
use rustytree.Walk.Paths.{array_name, parent_of}
use rustytree.Walk.Open.Names.{names_in}
use rustytree.Walk.Snapshot.Names.{names_below}
use rustytree.Python.Tree.{keeps_of, open_datatree-session}
use rustytree.Python.Handles.{AllEntries}
use rustytree.Python.Pickles.{Delivers, Travels, open_datatree-Travels}
use rustytree.Python.Repository.{without_specs, open_datatree-same_session}
use rustytree.Python.Refuses.{
  Raises, open_datatree-missing, open_datatree-NamesNoStore, open_datatree-HasNoSession,
}
use rustytree.Url.{local}
use rustytree.Python.Open.{
  PySource, Arguments, returned, Crates, open_datatree, parse_storage_options, options_into,
  insert_option,
}
use rustytree.Python.Sample.{
  sample-OpensStore, platform, platform-ReadsNumbers, platform-Reshapes, crates, bytes_source,
  path_source, args, session-CompleteArrays, data_parses, data_is_plain, sample-StoreIsComplete,
}

-- {"units": "m", "range": [-1, 18446744073709551615]}
abbrev attribute : Json
attribute = object (
    field (codes "units") (text (codes "m")) (
      field (codes "range")
        (array
          (cons (number (negative 0)) (cons (number (positive 18_446_744_073_709_551_615)) nil)))
        end))

range_ne : codes "range" ≢ codes "units"
unfolding text_eq
range_ne e = let q : false ≡ true = ap (λ s. text_eq s (codes "units")) e in cc

attribute-HasDistinctKeys : HasDistinctKeys attribute
attribute-HasDistinctKeys = ((range_ne, tt), (tt, (tt, ((tt, (tt, tt)), tt))))

read-json_to_py_example :
    (p : PyAny ℕ) × ((json_to_py platform attribute ≡ ok p) × (read p ≡ attribute))
read-json_to_py_example =
    read-json_to_py platform platform-ReadsNumbers attribute attribute-HasDistinctKeys

open_datatree-session_example :
    (d : PyFields ℕ) × (open_datatree platform crates 0 bytes_source args ≡ returned (ok d))
    × Ascending (entry_keys d)
    × ((p : Text) → Occurs p (entry_keys d) ↔ Occurs p (kept_groups (keeps_of args) snaps))
    × EachEntry (λ path group. IsGroup path (names_below snaps path) group) d
open_datatree-session_example =
    open_datatree-session platform crates 0 args (5 ∷ []) (5 ∷ []) bytes_source snaps
      platform-ReadsNumbers platform-Reshapes (omega arith) session-CompleteArrays refl refl
      snaps_listed snaps-ReadsAll snaps-HaveParents

open_datatree-Travels_example :
    Delivers
      (AllEntries (Travels msgpack bytes_source.as_bytes))
      (open_datatree platform crates 0 bytes_source args)
open_datatree-Travels_example =
    open_datatree-Travels msgpack platform crates 0 msgpack-RoundTrips bytes_source args

sample-height : height sample_tree ≤ 2
unfolding height
sample-height = omega arith

names_at_a : names_in sample (codes "/a") ≡ codes "x" ∷ []
unfolding sample text_eq array_name rsplit_once
names_at_a = refl

names_below_a : names_below snaps (codes "/a") ≡ codes "x" ∷ []
unfolding text_eq array_name rsplit_once parent_of
names_below_a = refl

open_datatree-visited_example :
    (d : PyFields ℕ) × (open_datatree platform crates 2 path_source args ≡ returned (ok d))
    × ((q : Text) → Occurs q (entry_keys d) ↔ Occurs q (visited (enters none) sample_tree))
    × EachEntry (λ path group. IsGroup path (names_in sample path) group) d
open_datatree-visited_example =
    open_datatree-visited platform crates 2 args path_source sample sample_tree
      platform-ReadsNumbers platform-Reshapes sample-StoreIsComplete (sample-OpensStore none)
      (omega arith) refl refl sample-Holds sample-height (each_group-Opens (enters none))

-- A key that is given twice keeps its last value.
doubled_key :
    parse_storage_options (
      record { key = ok (codes "anon"); value = ok (codes "True") }
      ∷ record { key = ok (codes "anon"); value = ok (codes "False") }
      ∷ [])
    ≡ ok ((codes "anon", codes "False") ∷ [])
unfolding parse_storage_options options_into insert_option text_eq
doubled_key = refl

grid_fetched :
    fetch_all_elements int16_names (grid int32)
    ≡ Error.ok (e_i32 (slab cell ((0, 5) ∷ (0, 7) ∷ [])))
unfolding fetch_all_elements for_each_supported_dtype eager_from_vec
grid_fetched = refl

grid-Contents : Contents int16_names (grid int32)
unfolding for_each_supported_dtype
grid-Contents = inl (p_i32, cell, refl, λ ranges b. refl)

read_subset-fetch_all_elements_example :
    read_subset (grid int32) int16_names (whole (5 ∷ 7 ∷ []))
    ≡ ok (flat_array (e_i32 (slab cell ((0, 5) ∷ (0, 7) ∷ []))))
read_subset-fetch_all_elements_example =
    read_subset-fetch_all_elements int16_names (grid int32) (2 ∷ 3 ∷ [])
      (e_i32 (slab cell ((0, 5) ∷ (0, 7) ∷ []))) grid-Contents refl (omega arith) grid_fetched
