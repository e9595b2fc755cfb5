-- ===== src/Rules.antt =====
-- src/queue/rules: where the comments of an added line are.
pub mod Syntax
pub mod Spans
pub mod Forward
pub mod Scanning
pub mod Suppression
