-- ===== src/Crontab.antt =====
-- crates/ng-crontab: jobs that run at times. The crate `cron`, the decoding of a job's type and chrono's
-- conversion of milliseconds are parameters. An instant is its nanoseconds since the epoch, a stored
-- time its milliseconds.
pub mod Cache
pub mod Scheduler
mod Tests
