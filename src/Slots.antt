-- ===== src/Slots.antt =====
-- The slot watcher, cmd/solana-exporter/slots.go.
pub mod State
pub mod Production
pub mod Infos
pub mod Rewards
pub mod Cleaning
pub mod Watching
pub mod Requests
pub mod Quiet
pub mod Watermark
pub mod Advances
pub mod Rounds
pub mod Series
pub mod FirstRound
pub mod Pace
pub mod Live
pub mod Mocked
pub mod Each
pub mod Vectors
pub mod Order
pub mod Light
pub mod Registering
pub mod Orders
