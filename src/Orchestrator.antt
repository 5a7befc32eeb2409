-- ===== src/Orchestrator.antt =====
-- internal/orchestrator: the jobs that build and tear down an environment, and the reconciler.
pub mod Spec
mod Provision
mod Cleanup
mod Reconciler
mod Failure
mod Finishing
mod Success
mod Examples
unfoldable pub use Spec.*
unfoldable pub use Provision.*
unfoldable pub use Cleanup.*
unfoldable pub use Reconciler.*
