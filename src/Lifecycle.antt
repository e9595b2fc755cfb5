-- ===== src/Lifecycle.antt =====
-- src/queue/lifecycle: what becomes of findings from one scan of a pull request to the next.
pub mod Carry
pub mod Matcher
pub mod Plan
pub mod Counts
pub mod Reopening
pub mod FullMatch
pub mod Carrying
pub mod Recount
pub mod Planning
