-- ===== src/Store/Handle.antt =====
-- The pickle hooks of src/array.rs: `ZarrsArrayHandle::__reduce__` and `_reopen_array_handle`.
use rustytree.Prelude.{ℕ, ◌≡◌, refl, Option, none, some, List, ◌∷◌, ◌++◌, Text, codes}
use rustytree.Error.{Result, ok, err, other, ◌>>=◌, PyErr, value_error, to_py_err}
use rustytree.Array.Read
use rustytree.Array.Read.{PyResult, raise}
use rustytree.Zarrs.{Fallible, good, bad, map_err, ZarrsArray, Storage}
use rustytree.Walk.Recursive.{WalkSource}
use rustytree.Store.{Backends, ReopenSpec, build_store_from_spec}

-- `rmp_serde::to_vec` and `rmp_serde::from_slice` on the pickle state, and `{:?}` of a text.
pub record Msgpack : Type 0 where
  pub to_vec : ReopenSpec × Text → Fallible (List ℕ)
  pub from_slice : List ℕ → Fallible (ReopenSpec × Text)
  pub debug : Text → Text

pub record ZarrsArrayHandle (V : Type 0) : Type 0 where
  pub array : ZarrsArray V
  pub spec : Option ReopenSpec

-- The dash in the message is U+2014.
unfoldable pub not_picklable : PyErr
not_picklable = record {
  exception = value_error;
  message =
      codes "rustytree: this array is not picklable "
      ++ (226
          ∷ 128
          ∷ 148
          ∷ codes
              " pickling (e.g. for dask.distributed) is currently supported only for stores opened via an icechunk Session, not vanilla s3:// / local Zarr stores. Either open the store through an icechunk Session, or compute with the threaded scheduler (`dask.config.set(scheduler=\"threads\")`).");
}

abbrev pub value_err : Text → PyErr
value_err t = record { exception = value_error; message = t }

abbrev pub or_raise {ℓ} : {A : Type ℓ} → (Text → PyErr) → Fallible A → PyResult A
or_raise f (good a) = Read.ok a
or_raise f (bad e) = raise (f e)

-- `?` from a `Result` of the crate into one of PyO3
abbrev pub into_py {ℓ} : {A : Type ℓ} → Result A → PyResult A
into_py (ok a) = Read.ok a
into_py (err e) = raise (to_py_err e)

-- What `rmp_serde` documents: a value that is written is read back.
abbrev pub RoundTrips : Msgpack → Type 0
RoundTrips msgpack =
    (x : ReopenSpec × Text)
    → (bytes : List ℕ) × ((msgpack.to_vec x ≡ good bytes) × (msgpack.from_slice bytes ≡ good x))

module _ {V : Type 0} (msgpack : Msgpack) where
  -- `__reduce__`, by the state that it returns beside the reconstructor.
  unfoldable pub reduce : ZarrsArrayHandle V → PyResult (List ℕ)
  unfolding not_picklable
  reduce self = elim self.spec [
    | none ↦ raise not_picklable
    | some spec ↦
        or_raise (λ e. value_err (codes "rustytree: failed to serialise array handle: " ++ e))
          (msgpack.to_vec (spec, self.array.path))
  ]

  -- The store of the specification, and the handle of the array in it.
  unfoldable pub reopen_array : Backends V → ReopenSpec → Text → Result (ZarrsArrayHandle V)
  reopen_array backends spec path = do
    source ← build_store_from_spec backends spec
    array ←
        map_err
          (λ e. other (
            codes "rustytree: failed to reopen array "
            ++ (msgpack.debug path ++ (codes " on worker: " ++ e))))
          (source.1.open_array path)
    ok (record { array = array; spec = some spec })

  -- `_reopen_array_handle`, by the decoded state.
  abbrev pub reopen_decoded :
      Backends V → Fallible (ReopenSpec × Text) → PyResult (ZarrsArrayHandle V)
  reopen_decoded backends (good (spec, path)) = into_py (reopen_array backends spec path)
  reopen_decoded backends (bad e) =
      raise (value_err (codes "rustytree: corrupt ZarrsArrayHandle pickle state: " ++ e))

  unfoldable pub reopen_array_handle : Backends V → List ℕ → PyResult (ZarrsArrayHandle V)
  reopen_array_handle backends state = reopen_decoded backends (msgpack.from_slice state)

  -- With a codec that reads back what it writes: a handle with a reopen specification pickles, and
  -- if the store of the specification opens an array at the handle's path, the pickle state revives
  -- to a handle of that array with the same specification.
  pub reopen-reduce :
      (backends : Backends V) (self : ZarrsArrayHandle V) (spec : ReopenSpec)
      (source : WalkSource V) (store : Storage V) (array : ZarrsArray V)
      → RoundTrips msgpack
      → self.spec ≡ some spec
      → build_store_from_spec backends spec ≡ ok (source, store)
      → store.open_array self.array.path ≡ good array
      → (state : List ℕ) × ((reduce self ≡ Read.ok state)
          × (reopen_array_handle backends state
              ≡ Read.ok (record { array = array; spec = some spec })))
  unfolding reduce reopen_array_handle reopen_array
  reopen-reduce backends self spec source store array codec s b o =
      let (state, (w, r)) = codec (spec, self.array.path) in
      (state, (rw (s, w) refl, rw (r, b, o) refl))
