-- ===== src/Examples.antt =====
-- Tests: a concrete platform and signer, and the theorems at concrete inputs.
mod World
mod Logs
mod Keys
mod Policies
mod Calls
mod Denials
mod Queues
mod Wires
mod Rollouts
mod Exchanges
mod Services
mod Stores
mod Changes
