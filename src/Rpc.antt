-- ===== src/Rpc.antt =====
-- The RPC client, pkg/rpc: its data, its errors and its methods.
pub mod Types
pub mod Errors
pub mod Client
pub mod Cluster
pub mod Wire
pub mod Transport
pub mod Decoding
pub mod Queries
pub mod Methods
pub mod Questions
pub mod Node
pub mod Mock
