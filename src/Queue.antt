-- ===== src/Queue.antt =====
-- src/queue: how a scan of a pull request is asked for.
pub mod Mode
pub mod Scans
pub mod Enqueue
pub mod Modes
pub mod Pending
pub mod Enqueued
