-- ===== src/Service.antt =====
-- src/service.rs: what clients are answered, and how they are notified.
pub mod Requests
pub mod Blocks
pub mod Checks
pub mod Rpc
pub mod Messages
pub mod Subscriptions
