-- ===== src/Collector.antt =====
-- The collector, cmd/solana-exporter/collector.go, and its descriptors, cmd/solana-exporter/desc.go.
pub mod Versions
pub mod Desc
pub mod Votes
pub mod Node
pub mod Required
pub mod Collecting
pub mod Sent
pub mod Labels
pub mod Light
pub mod Describing
pub mod Accounts
