-- ===== src/Importer.antt =====
-- internal/importer/importer.go: the scenario files of a repository and the rows made of them.
pub mod Files
pub mod Rows
mod Tasks
mod Checks
mod Offer
mod Imported
mod Once
pub mod Read
mod Fresh
mod Known
mod Loops
mod Complete
mod Examples
