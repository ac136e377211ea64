-- ===== src/Worker.antt =====
-- src/mir_worker.c: the workers' statistics, private queues and looks for work, in child modules.
pub mod Stats
pub mod CommCost
pub mod Work
pub mod Backoff
pub mod Private
pub mod Done
mod Tests
