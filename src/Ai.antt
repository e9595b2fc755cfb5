-- ===== src/Ai.antt =====
-- src/modules/ai/scan: what is done with the findings that the model reports.
pub mod Tiers
pub mod Validator
pub mod Accepting
pub mod RunMerge
pub mod Unused
pub mod Keeping
pub mod Regenerating
pub mod Folding
pub mod Folded
pub mod Json
pub mod Clamp
pub mod Clamping
pub mod Clamped
pub mod Repair
pub mod Salvaging
pub mod Dedupe
pub mod Deduping
