-- ===== src/Scheduler.antt =====
-- The cron scheduler, internal/scheduler/scheduler.go.
pub mod Cron
pub mod Next
pub mod Jobs
mod Tests
