-- ===== src/Tests.antt =====
-- The properties at concrete inputs: small patches, findings, pull requests and model answers.
mod Diffs
mod Scans
mod Decisions
mod Answers
mod Leaks
mod Joins
mod Queues
mod Lines
mod Answered
mod Replies
