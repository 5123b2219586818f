-- ===== src/Utils.antt =====
-- cmd/solana-exporter/utils.go, by subject; what is proved of each part stands in its child module.
pub mod Tracker
pub mod Schedule
pub mod Accounts
pub mod Unique
pub mod Blocks
pub mod Health
