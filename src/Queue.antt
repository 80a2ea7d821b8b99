-- ===== src/Queue.antt =====
-- The queue crate (crates/queue): the retry ladder and the worker.
pub mod Scheduler
pub mod Worker
