-- ===== src/Tests/Queues.antt =====
-- Concrete scans of a pull request.
use critiq_be.Prelude.{◌≡◌, false, none, some, [], ◌∷◌, Text, codes, ◌↔◌}
use critiq_be.Reviews.Types.{running, allow_ai, ai_failed}
use critiq_be.Queue.Mode.{
  full, incremental, BaseScan, ScanModeInput, ScanModeDecision, first_scan, decide_scan_mode,
}
use critiq_be.Queue.Scans.{ScanRow, ScanStore, active, webhook, EnqueueScanInput}
use critiq_be.Queue.Modes.{IsDelta, decide_scan_mode_lem}

abbrev rules : Text
rules = codes "r7"

abbrev prompt : Text
prompt = codes "p3"

abbrev base : BaseScan
base = record {
  id = codes "s1";
  head_sha = codes "abc";
  ruleset_version = rules;
  ai_prompt_version = some prompt;
  ai_locale = none;
  ai_status = some ai_failed;
  ai_reviewed = false;
  rule_tiers = [];
}

abbrev request : ScanModeInput
request = record {
  base = some base;
  full = false;
  effective_policy = some allow_ai;
  ai_enabled = false;
  locale = none;
  rule_tiers = [];
}

decide_scan_mode_lem_example : ((decide_scan_mode rules prompt request).diff_mode ≡ incremental) ↔ (
    (b : BaseScan) × IsDelta rules prompt request b
    × ((decide_scan_mode rules prompt request).base_scan_id ≡ some b.id)
    × ((decide_scan_mode rules prompt request).prev_head_sha ≡ some b.head_sha))
decide_scan_mode_lem_example = decide_scan_mode_lem rules prompt request

abbrev first_mode : ScanModeDecision
first_mode = record {
  diff_mode = full;
  full_reason = some first_scan;
  base_scan_id = none;
  prev_head_sha = none;
}

abbrev old_scan : ScanRow
old_scan = record {
  id = codes "s1";
  organization_id = codes "o";
  repository_id = codes "r";
  pull_id = codes "p";
  head_sha = codes "abc";
  base_sha = none;
  status = running;
  trigger = webhook;
  attempt = 1;
  ruleset_version = rules;
  rule_tiers = [];
  mode = first_mode;
  ai_prompt_version = none;
  ai_locale = none;
  ai_status = none;
  ai_reviewed = false;
  error_message = none;
}

abbrev scans : ScanStore
scans = record {
  scans = old_scan ∷ [];
  jobs = record { scan_id = codes "s1"; state = active } ∷ [];
  published = [];
}

abbrev push : EnqueueScanInput
push = record {
  organization_id = codes "o";
  repository_id = codes "r";
  pull_id = codes "p";
  head_sha = codes "def";
  base_sha = none;
  trigger = webhook;
  full = false;
}
