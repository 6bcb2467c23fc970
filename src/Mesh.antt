-- ===== src/Mesh.antt =====
-- mesh.py: governance inputs, the registry of their sources, and the preflight that aggregates them.
mod Input
mod Sources
mod Conflict
mod Preflight
pub mod Attested
pub mod Winner
pub mod Ranking
unfoldable pub use Input.*
unfoldable pub use Sources.*
unfoldable pub use Conflict.*
unfoldable pub use Preflight.*
