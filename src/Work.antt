-- ===== src/Work.antt =====
-- The durable background work queue (internal/database/durable_work*.go): its tables, and one
-- module for each group of statements.
pub mod Schema
pub mod Result
pub mod Operations
pub mod Admission
pub mod Tasks
pub mod Claim
pub mod Finish
pub mod Recover
pub mod Stops
pub mod Attach
pub mod History
pub mod Associations
pub mod Reconcile
pub mod Progress
pub mod Keeps
pub mod Requests
pub mod Queue
mod Examples
