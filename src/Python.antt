-- ===== src/Python.antt =====
-- src/lib.rs: the function that Python calls, and the Python objects that it returns.
pub mod Object
pub mod Convert
pub mod Open
pub mod Values
pub mod Complete
pub mod Keys
pub mod Fetched
pub mod Loads
pub mod Groups
pub mod Session
pub mod Tree
pub mod Opened
pub mod Stores
pub mod Vanilla
pub mod Lazy
pub mod Handles
pub mod Pickles
pub mod Repository
pub mod Refuses
pub mod Options
pub mod Sample
mod Tests
