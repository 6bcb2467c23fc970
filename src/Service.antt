-- ===== src/Service.antt =====
-- service.py and platform.py: the service that binds policies and actions to the issuer and the barrier, and
-- the platform around it, which binds the runtime identity to each request.
pub mod Identity
pub mod Guardrails
pub mod Governed
pub mod Context
pub mod Bound
