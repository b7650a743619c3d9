-- ===== src/Tracking.antt =====
-- resource_tracking: what is seen of the resources in each state, and how later visits differ.
pub mod Snapshot
pub mod Discrepancy
pub mod Visits
pub mod Skips
pub mod Drift
pub mod Reports
pub mod Sets
pub mod Unchanged
mod Samples
