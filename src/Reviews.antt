-- ===== src/Reviews.antt =====
-- src/modules/reviews: decisions on pull requests, their copies at the provider, and merging.
pub mod Types
pub mod Submit
pub mod Retry
pub mod Blockers
pub mod Merge
pub mod Latest
pub mod Blocking
pub mod Deciding
pub mod Again
pub mod Merging
pub mod Syncing
pub mod Retrying
