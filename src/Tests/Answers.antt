-- ===== src/Tests/Answers.antt =====
-- src/modules/ai/scan and src/queue/rules/rule-tiers.ts on one answer of the model.
use critiq_be.Prelude.{
  ℕ, ◌+◌, ◌≤◌, ◌≡◌, refl, true, false, not, none, some, List, [], ◌∷◌, Text, codes, pos, countb,
  length, nat_eq,
}
use critiq_be.Findings.{
  ai, critical, major, injection, security, new, CandidateFinding, FindingRow, StoredFinding,
}
use critiq_be.Lifecycle.Plan.{candidate_row}
use critiq_be.Similarity.{Unicode}
use critiq_be.Ai.Tiers.{
  is_finding_enabled, enabled_tiers, tier_of_finding, has_tier, is_finding_enabled-enabled_tiers,
}
use critiq_be.Ai.Validator.{Words, Report, SentFile, AiFindingDraft, draft_of}
use critiq_be.Ai.RunMerge.{
  PreviousRunFinding, base_scan, index_from, values, own_rows, merge_with_previous_run,
}
use critiq_be.Ai.Keeping.{is_severe, counts_as}
use critiq_be.Ai.Regenerating.{merge_with_previous_run_lem}

abbrev words : Words
words = record { is_space = λ c. nat_eq c 32; to_lower = λ t. t; words_only = λ t. t }

abbrev report : Report
report = record {
  file = codes "./a.ts";
  line_start = pos 3;
  line_end = pos 4;
  category = injection;
  severity = critical;
  title = codes "SQL is built from input";
  message = codes "The query joins text of the request.";
  confidence = 600000;
}

abbrev sent_files : List (Text × SentFile)
sent_files =
    (codes "a.ts", record { added_lines = pos 3 ∷ []; lines = (pos 3, codes "q") ∷ [] }) ∷ []

is_finding_enabled-enabled_tiers_example :
    is_finding_enabled ai (codes "ai.injection") (some injection) (enabled_tiers (security ∷ []))
    ≡ (elim (tier_of_finding ai (codes "ai.injection") (some injection)) [
      | none ↦ true
      | some t ↦ not (has_tier (security ∷ []) t)
    ])
is_finding_enabled-enabled_tiers_example =
    is_finding_enabled-enabled_tiers ai (codes "ai.injection") (some injection) (security ∷ [])

abbrev earlier_finding : StoredFinding
earlier_finding = record {
  id = codes "f";
  source = ai;
  rule_id = codes "ai.injection";
  severity = critical;
  title = codes "SQL";
  message = codes "text is joined";
  file_path = codes "a.ts";
  line_start = pos 2;
  line_end = pos 2;
  snippet = none;
  fingerprint = codes "x";
  suppressed_reason = none;
  category = some injection;
  confidence = some 900000;
  reported_severity = some critical;
  previous_run_severity = none;
  latest_run_severity = none;
  not_reproduced = none;
  first_seen_scan_id = codes "s0";
  dedupe_of_id = none;
}

abbrev previous : List PreviousRunFinding
previous = record { stored = earlier_finding; status = none; origin_finding_id = none } ∷ []

abbrev found_again : CandidateFinding
found_again = record {
  source = ai;
  rule_id = codes "ai.injection";
  severity = major;
  title = codes "SQL";
  message = codes "text is joined";
  file_path = codes "a.ts";
  line_start = pos 2;
  line_end = pos 2;
  snippet = none;
  fingerprint = codes "x";
  suppressed_reason = none;
  category = some injection;
  confidence = some 900000;
  reported_severity = some major;
  dedupe_of_id = none;
}

abbrev run : List FindingRow
run = candidate_row (codes "r") found_again (codes "s1") new none ∷ []

abbrev plain : Unicode
plain = record { to_lower = λ t. t; letters_only = λ t. t; is_space = λ c. false }

abbrev supply : ℕ → Text
supply n = n ∷ []

merge_with_previous_run_lem_example :
    let r = merge_with_previous_run plain supply run previous base_scan in
    let earlier = values (index_from [] previous) in
    ((k : ℕ)
      → (countb (is_severe k) earlier ≤ countb (counts_as k) r.rows)
        × (countb (counts_as k) run ≤ countb (counts_as k) r.rows))
    × (r.stats.matched + r.stats.not_reproduced ≡ length earlier)
    × (length r.rows
        ≡ length (own_rows base_scan (index_from [] previous) run) + r.stats.not_reproduced)
merge_with_previous_run_lem_example =
    merge_with_previous_run_lem plain supply run previous base_scan (refl, tt)

abbrev drafts : List AiFindingDraft
drafts = draft_of words report ∷ draft_of words (record report { line_end = pos 6 }) ∷ []

abbrev supply_text : Text → Text
supply_text t = t
