-- ===== src/Diff.antt =====
-- src/queue/diff and src/queue/lifecycle/line-mapping.ts: unified diffs and the lines they move.
pub mod Parser
pub mod LineMapping
pub mod Script
pub mod Tracking
pub mod Content
pub mod Render
pub mod Headers
pub mod Reading
pub mod RoundTrip
