-- ===== src/Queues.antt =====
-- packages/queues/src: job queues.
pub mod Retry
pub mod Memory
