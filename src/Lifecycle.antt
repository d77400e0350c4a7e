-- ===== src/Lifecycle.antt =====
-- The lifecycles of a verification request (Mapnode/coordinator/state.go) and of a piece of evidence
-- (Mapnode/evidence/state.go).
pub mod Requests
pub mod Evidence
mod Examples
