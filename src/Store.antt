-- ===== src/Store.antt =====
-- internal/store over the schema of migrations/: the tables as lists of rows, in the order of their
-- insertion. A method is a function of the whole state that returns Go's result or error with the
-- state after it.
mod State
pub mod Table
pub mod Constraints
pub mod Removal
pub mod Rows
pub mod Attempts
pub mod Counts
pub mod Purchases
pub mod Users
pub mod Products
pub mod Tests
pub mod Scenarios
pub mod Environments
pub mod Sessions
pub use State.*
