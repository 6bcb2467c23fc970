-- ===== src/Issuer.antt =====
-- issuer.py: arbitrate, audit and issue a signed GAA. The clock's reading and the nonce that the factory
-- draws are arguments; the log is passed through, and comes back after an exception too.
mod Request
mod Authorize
pub mod Granted
pub mod Accepted
pub mod Recorded
pub mod Compensation
unfoldable pub use Request.*
unfoldable pub use Authorize.*
