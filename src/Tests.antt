-- ===== src/Tests.antt =====
-- The theorems at concrete inputs.
mod Reached
mod Services
mod Submission
mod Data
mod Future
mod Redis
mod Tracker
mod Rest
mod Manager
