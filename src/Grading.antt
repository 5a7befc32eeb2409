-- ===== src/Grading.antt =====
-- internal/grading: the checks run over SSH, and the score that they make.
mod Runner
mod Engine
mod Retry
pub mod Score
mod Examples
unfoldable pub use Runner.*
unfoldable pub use Engine.*
