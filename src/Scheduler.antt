-- ===== src/Scheduler.antt =====
-- The state-driven test scheduler, charm_integration_testing/test_suite/scheduler.
pub mod State
pub mod Graph
pub mod Marker
pub mod Item
pub mod Session
pub mod Recovery
pub mod Collection
pub mod Planner
pub mod Ordering
mod Samples
