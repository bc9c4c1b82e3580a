-- ===== src/Manager.antt =====
-- slurm_manager/slurm_manager.py: `SlurmManager`, by what its methods do.
pub mod Scheduler
pub mod Script
pub mod ExitCode
pub mod Submit
pub mod Check
pub mod Service
