-- ===== src/Tests.antt =====
-- The properties at concrete tables, and runs of the model.
pub mod Data
mod Chaintips
mod Linking
pub mod Node
mod Scanner
mod Tables
mod Service
