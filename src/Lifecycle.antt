-- ===== src/Lifecycle.antt =====
-- All parts together, as cmd/server/main.go wires them: the events, the runs, and the life of every
-- attempt across them.
mod Frame
pub mod Writes
mod Rules
pub mod Operations
pub mod Server
mod Answers
mod Editing
mod Registering
mod Importing
mod Handlers
pub mod Steps
pub mod Changes
pub mod Consistent
mod Rows
mod Stocked
pub mod Offers
pub mod Constraints
pub mod Admins
pub mod Live
pub mod History
mod Examples
