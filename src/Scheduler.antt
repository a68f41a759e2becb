-- ===== src/Scheduler.antt =====
-- packages/scheduler/src: tasks that run at times.
pub mod Task
pub mod Driver
pub mod Registry
