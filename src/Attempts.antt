-- ===== src/Attempts.antt =====
-- internal/attempts: the life of an attempt, from the request to the score.
pub mod StateMachine
pub mod Graph
mod Documented
pub mod Paths
pub mod Service
pub mod Transition
pub mod Request
pub mod Refund
pub mod Handler
pub mod Submit
mod Examples
