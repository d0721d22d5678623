-- ===== src/Scanner.antt =====
-- src/scanner.rs: what one pass of the scanner does with a node's answers and with the tables.
pub mod Network
pub mod Inflation
pub mod Ancestry
pub mod Linking
pub mod StaleCandidates
pub mod Forks
pub mod Rollback
pub mod Process
pub mod LagChecks
pub mod RollbackChecks
pub mod Branches
