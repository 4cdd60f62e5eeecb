-- ===== src/Lib.antt =====
-- The Rust core of rustytree, a backend that opens hierarchical Zarr v3 stores as trees of datasets.
--
-- `open_datatree` (src/lib.rs) parses its argument (src/url.rs), opens a store (src/store.rs,
-- src/icechunk_store.rs), and walks the groups of it (src/walk.rs), pruned by a glob predicate
-- (src/glob.rs). The walk gives one `NodeData` (src/node.rs) for each group. Small coordinates are
-- fetched during the walk; every other array is read on demand through a handle (src/array.rs),
-- which dispatches on the data type (src/dtype_dispatch.rs). Errors (src/error.rs) become Python
-- exceptions at the boundary.
--
-- The files:
-- - Error.antt: `RustytreeError`, its texts, and `From<RustytreeError> for PyErr`.
-- - Glob.antt: `GlobPredicate::parse`, `could_descendant_match` and `star_match`. Glob/Spec.antt is
--   the specification, a relation that replaces each `*` by some run of bytes; Glob/Pieces.antt,
--   Glob/Scan.antt and Glob/Star.antt relate the search of `star_match` to it, Glob/Names.antt has
--   the segments of paths, and Glob/Predicate.antt what is pruned.
-- - Url.antt: `StoreSpec` and `parse_store_spec`.
-- - Zarrs.antt and Json.antt: what the crate uses of zarrs and serde_json, as records of answers.
-- - Array/Dtype.antt: `for_each_supported_dtype!` and the three names of a data type.
-- - Array/Slice.antt: `slice_nd`; its children count the multi-index of the loop up against the
--   row-major order.
-- - Array/Read.antt: `ZarrsArrayHandle::read_subset`, one definition for each stage of it: the range
--   checks, the alignment to chunks, the read, the dispatch, and the slice.
-- - BTree.antt: `BTreeMap` with text keys, as a list in ascending order.
-- - Node.antt: `EagerElements`, `VarMeta`, `NodeData`.
-- - Walk/Join.antt: `try_join_all`. Walk/Paths.antt: `normalize_path` and `parent_of`.
--   Walk/Open.antt: `open_single` and `open_array_meta`. Walk/Discover.antt: `discover_paths` and
--   `walk_via_zarrs`. Walk/Snapshot.antt: `walk_icechunk_session_snapshot`. Walk/Eager.antt:
--   `should_eager_fetch`, `fetch_all_elements` and `eager_phase`. Walk/Recursive.antt:
--   `walk_recursive`; Walk/Recursive/Limit.antt is about its limit on concurrency.
--   Walk/Discover/Permits.antt: the permits of `discover_paths` as a step relation.
-- - Store.antt: what src/store.rs and src/icechunk_store.rs open. Store/Handle.antt: the handle of an
--   array and its pickle hooks. Store/Getters.antt: the attributes of the handle.
-- - Runtime.antt: the cell with the tokio runtime of the process, and `handle`.
-- - Credentials.antt: `PythonCredentialsFetcher`, its three `get` methods, and what they read of
--   Python objects.
-- - Python/Object.antt: the Python objects that src/lib.rs builds. Python/Convert.antt:
--   `json_to_py` and the conversions of attributes, variables and nodes. Python/Open.antt:
--   `open_datatree` and its options. The other files of the folder are about what is proved of:
--   Python/Values.antt attribute values, Python/Fetched.antt fetched values, Python/Lazy.antt
--   fetches against reads, Python/Groups.antt the dict of a group, Python/Session.antt and
--   Python/Tree.antt a session, Python/Loads.antt, Python/Opened.antt, Python/Stores.antt and
--   Python/Vanilla.antt a vanilla store, Python/Repository.antt a repository against its session,
--   Python/Handles.antt and Python/Pickles.antt handles, Python/Refuses.antt and
--   Python/Options.antt errors.
-- * Prelude.antt and its children: lists, texts and their laws.
--
-- Texts are lists of UTF-8 bytes. `u64` is the native numbers with the wrap-around of a release
-- build written out (`% 2 ^ 64`); `usize` has 64 bits, and sums and indices of it that stand for
-- resident memory do not wrap. Element values are a parameter. A store, a session, zarrs, icechunk
-- and serde are parameters that answer each question with a value or the text of an error; a store
-- is only read, so it answers in the same way each time.
--
-- A Python object that comes in is a record of what PyO3 extracts of it; one that goes out is a
-- value of a data type of its own, with a dict as a list of entries. The functions of Python and
-- of serde_json's numbers, the clock, and the order in which a `HashMap` gives its entries are
-- parameters. What a credential fetcher does to the interpreter is explicit: `pickle.loads` and
-- the call of what it loads take the state of the interpreter and give the one after. An instant
-- is a number of nanoseconds, and the clock is not near its last one.
--
-- Futures that run concurrently only read, so a join of them is modelled by the list of their
-- results; which of several errors a failed join returns is up to a parameter, `race`. There the
-- semaphore is only open or closed, since the wait for a permit is not visible in a result. To
-- make one with more permits than tokio documents as the most, `usize::MAX >> 3` with a `usize` of
-- 64 bits, is a panic, as tokio documents. How the calls of `discover_paths` take and drop permits
-- is a step relation of its own, with any order of the steps, for walks in which no request fails.
--
-- `discover_paths` recurses into whatever child groups the store lists, so it has fuel, and running
-- out of it is an outcome of its own. For a store that holds a finite tree of groups, fuel of the
-- height of the tree is enough.
--
-- Not modelled: the registration of the functions and classes of the extension module (src/lib.rs)
-- and of the fetchers with typetag (src/py_credentials.rs), and the Python package
-- (python/rustytree).
pub mod Prelude
pub mod Error
pub mod BTree
pub mod Json
pub mod Zarrs
pub mod Glob
pub mod Url
pub mod Array
pub mod Node
pub mod Walk
pub mod Runtime
pub mod Store
pub mod Credentials
pub mod Python
