-- ===== src/Replay.antt =====
-- Mapnode/replay: the replay of a trace of cross-chain events over an in-memory graph of blocks,
-- with integer cost estimates.
pub mod Text
pub mod Cost
pub mod Heights
pub mod Checkpoints
pub mod Baselines
pub mod View
pub mod Scratch
pub mod Search
pub mod Planner
pub mod Setting
pub mod Coordinator
mod Examples
