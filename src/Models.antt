-- ===== src/Models.antt =====
-- src/models.rs: the tables, and the queries on them.
pub mod Rows
pub mod Query
pub mod Tables
pub mod Chaintips
pub mod Blocks
pub mod Pools
pub mod Transactions
pub mod Lags
pub mod Watches
pub mod StaleCandidates
pub mod StaleHeights
pub mod Nodes
pub mod Peers
pub mod Templates
pub mod Outsets
pub mod Conflicts
pub mod Branches
