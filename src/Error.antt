-- ===== src/Error.antt =====
-- src/error.rs: the error type of the crate, its texts, and the Python exception of each variant.
-- An upstream error is the text that its `Display` gives.
pub mod Ensures
mod Tests
use package.rustytree.Prelude.{List, [], ◌∷◌, ◌++◌, Text, codes}

pub data RustytreeError : Type 0 where
  io : Text → RustytreeError
  not_found : Text → RustytreeError
  invalid_input : Text → RustytreeError
  icechunk_session : Text → RustytreeError
  other : Text → RustytreeError

-- `Result<T>` of the crate.
pub data Result {ℓ} (A : Type ℓ) : Type ℓ where
  ok : A → Result A
  err : RustytreeError → Result A

infixl 5 ◌>>=◌
abbrev pub ◌>>=◌ {ℓ κ} : {A : Type ℓ} {B : Type κ} → Result A → (A → Result B) → Result B
ok a >>= f = f a
err e >>= f = err e

-- `Display`, from the `#[error]` attributes.
unfoldable pub to_string : RustytreeError → Text
to_string (io e) = codes "I/O error: " ++ e
to_string (not_found key) = codes "not found: " ++ key
to_string (invalid_input what) = codes "invalid input: " ++ what
to_string (icechunk_session e) = codes "icechunk session: " ++ e
to_string (other what) = what

-- The exceptions that the crate raises.
pub data Exception : Type 0 where
  os_error key_error value_error runtime_error index_error not_implemented_error : Exception
  -- One that Python code raises, by the name of its type.
  foreign : Text → Exception

pub record PyErr : Type 0 where
  pub exception : Exception
  pub message : Text

pub exception_of : RustytreeError → Exception
exception_of (io _) = os_error
exception_of (not_found _) = key_error
exception_of (invalid_input _) = value_error
exception_of (icechunk_session _) = value_error
exception_of (other _) = runtime_error

-- `From<RustytreeError> for PyErr`
unfoldable pub to_py_err : RustytreeError → PyErr
unfolding to_string exception_of
to_py_err e = record { exception = exception_of e; message = to_string e }
