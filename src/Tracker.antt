-- ===== src/Tracker.antt =====
-- slurm_manager/job_tracker.py: `JobTracker`, by what its methods do.
pub mod Topics
pub mod State
pub mod Dispatch
pub mod Status
pub mod Register
pub mod Remove
pub mod Monitor
pub mod Tracked
pub mod Reachable
pub mod Routing
