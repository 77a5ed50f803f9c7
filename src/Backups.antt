-- ===== src/Backups.antt =====
-- backend/backups: the persisted jobs and their clock.
pub mod Jobs
pub mod Schedule
