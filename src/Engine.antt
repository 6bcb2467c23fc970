-- ===== src/Engine.antt =====
-- engine.py: the execution barrier. The clock's reading and the action are arguments, and the log is
-- passed through.
mod Evidence
mod Validate
mod Execute
pub mod Barrier
pub mod Execution
pub mod Interleaving
unfoldable pub use Evidence.*
unfoldable pub use Validate.*
unfoldable pub use Execute.*
