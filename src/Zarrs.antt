-- ===== src/Zarrs.antt =====
-- What the crate uses of the zarrs crate, which is not part of it: opened arrays and groups as
-- records of answers, each answer a value or the text of an error. A store is read, never written,
-- so one store gives the same answer each time.
use rustytree.Prelude.{ℕ, List, Option, Text}
use rustytree.Error.{RustytreeError, Result, ok, err}
use rustytree.Array.Dtype.{DataType, Primitive}
use rustytree.Json.{Json}

-- The result of an upstream call; a failure is the text that `Display` gives of it.
pub data Fallible {ℓ} (A : Type ℓ) : Type ℓ where
  good : A → Fallible A
  bad : Text → Fallible A

-- `.map_err(f)?`
abbrev pub map_err {ℓ} : {A : Type ℓ} → (Text → RustytreeError) → Fallible A → Result A
map_err f (good a) = ok a
map_err f (bad e) = err (f e)

-- Half-open ranges, one to an axis.
abbrev pub Ranges : Type 0
Ranges = List (ℕ × ℕ)

-- An opened `zarrs::Array`; `V` holds the elements of the numeric types.
pub record ZarrsArray (V : Type 0) : Type 0 where
  pub path : Text
  pub shape : List ℕ
  pub data_type : DataType
  pub dimension_names : Option (List (Option Text))
  pub attributes : List (Text × Json)
  -- `chunk_shape` at the chunk with all indices 0.
  pub chunk_shape : Fallible (List ℕ)
  -- `async_retrieve_array_subset::<Vec<T>>`, for a numeric `T`, `String` and `Vec<char>`.
  pub retrieve : Primitive → Ranges → Fallible (List V)
  pub retrieve_strings : Ranges → Fallible (List Text)
  pub retrieve_chars : Ranges → Fallible (List (List ℕ))

-- `GroupCreateError`, of which the crate tells one variant from the rest.
pub data GroupCreateError : Type 0 where
  missing_metadata : GroupCreateError
  failure : Text → GroupCreateError

pub data GroupOpened (A : Type 0) : Type 0 where
  opened : A → GroupOpened A
  not_opened : GroupCreateError → GroupOpened A

-- An opened `zarrs::Group`.
pub record ZarrsGroup : Type 0 where
  pub attributes : List (Text × Json)
  pub child_array_paths : Fallible (List Text)
  pub child_group_paths : Fallible (List Text)

-- An `AsyncReadableListableStorage`, by what opening a path in it gives.
pub record Storage (V : Type 0) : Type 0 where
  pub open_group : Text → GroupOpened ZarrsGroup
  pub open_array : Text → Fallible (ZarrsArray V)
