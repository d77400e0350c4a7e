-- ===== src/Live.antt =====
-- The planning of a live mapping node: Mapnode/trustview and Mapnode/planner, over the values
-- of internal/domain. Keccak-256 of go-ethereum is the parameter `keccak` of what uses it.
pub mod Domain
pub mod Ids
pub mod View
pub mod Planner
mod Examples
