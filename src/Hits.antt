-- ===== src/Hits.antt =====
-- src/queue/dedupe-findings.ts: what becomes of the rules' hits.
pub mod Dedupe
pub mod Covering
