-- ===== src/Replay.antt =====
-- replay.py and audit.py: the append-only, hash-chained replay log and its signed checkpoints.
mod Frame
mod Log
mod Audit
mod Integrity
mod Anchor
pub mod Chain
pub mod Tamper
pub mod Nonces
pub mod Evidence
pub mod Anchors
pub mod KeyOrder
pub mod Sqlite
pub mod Durable
pub mod Writers
unfoldable pub use Frame.*
unfoldable pub use Log.*
unfoldable pub use Audit.*
unfoldable pub use Integrity.*
unfoldable pub use Anchor.*
