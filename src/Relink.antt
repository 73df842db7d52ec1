-- ===== src/Relink.antt =====
-- internal/relink: the dry run that matches missing records to files found by a scan.
pub mod Plan
pub mod Maps
pub mod Records
pub mod Targets
pub mod Untouched
mod Examples
