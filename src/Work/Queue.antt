-- ===== src/Work/Queue.antt =====
-- What the queue promises beside exact progress, one module for each promise.
pub mod Dedupe
pub mod Limits
pub mod Delays
pub mod Cleanups
pub mod Recovery
pub mod Keys
pub mod Priority
pub mod History
pub mod Leases
pub mod Clearing
