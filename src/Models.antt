-- ===== src/Models.antt =====
-- models.py: signed approvals and the Governance Authorization Artifact.
mod Approval
mod Gaa
unfoldable pub use Approval.*
unfoldable pub use Gaa.*
pub mod Wire
