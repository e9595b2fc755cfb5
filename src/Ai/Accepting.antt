-- ===== src/Ai/Accepting.antt =====
-- What `validateAiFindings` of src/modules/ai/scan/ai-result-validator.ts promises of a stored
-- finding, and that it accounts for every reported one.
use critiq_be.Prelude.{
  ℕ, ◌+◌, ◌≤◌, ◌<◌, max, ◌≡◌, true, some, List, Text, length, map_get, pos, ◌+ℤ◌, ◌-ℤ◌, ◌≤ℤ◌,
}
use critiq_be.Findings.{FindingSeverity, critical, major, minor, info, RuleTier}
use critiq_be.Diff.LineMapping.{rounds}
use critiq_be.Ai.Tiers.{tier_for_category, is_tier_enabled}
use critiq_be.Ai.Validator.{
  SentFile, AiFindingDraft, ValidationResult, max_range, min_message_chars, drop_below, pointable,
}

-- How severe a severity is.
abbrev pub rank : FindingSeverity → ℕ
rank critical = 3
rank major = 2
rank minor = 1
rank info = 0

-- What an accepted finding satisfies.
abbrev pub IsSound : List (Text × SentFile) → List RuleTier → AiFindingDraft → Type 0
IsSound sent_files rule_tiers d =
    ((sent : SentFile) × (map_get d.file_path sent_files ≡ some sent)
      × ((i : ℕ)
          → i < rounds d.line_start d.line_end
          → pointable d.category sent (d.line_start +ℤ pos i) ≡ true))
    × (d.line_start ≤ℤ d.line_end)
    × (d.line_end -ℤ d.line_start ≤ℤ pos max_range)
    × (is_tier_enabled (tier_for_category (some d.category)) rule_tiers ≡ true)
    × (min_message_chars ≤ length d.message)
    × (drop_below ≤ d.confidence)
    × (rank d.severity ≤ max 1 (rank d.reported_severity))

-- Of what is reported, accepted, rejected and dropped together.
abbrev pub total : ValidationResult → ℕ
total v = length v.accepted + length v.rejected + v.dropped_low_confidence
