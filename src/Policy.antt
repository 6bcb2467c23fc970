-- ===== src/Policy.antt =====
-- policy.py: policies, the deterministic arbiter and the policy registry.
mod Rules
mod Validate
mod Approvals
mod Decide
mod Registry
pub mod Verdict
pub mod Quorum
pub mod Immutable
pub mod Wire
pub mod Loaded
unfoldable pub use Rules.*
unfoldable pub use Validate.*
unfoldable pub use Approvals.*
unfoldable pub use Decide.*
unfoldable pub use Registry.*
