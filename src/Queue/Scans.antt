-- ===== src/Queue/Scans.antt =====
-- The scans and the jobs of src/queue/scan-queue.service.ts, and what a request for a scan brings.
use critiq_be.Prelude.{ℕ, Bool, true, false, ◌||◌, Option, List, Text}
use critiq_be.Findings.{RuleTier}
use critiq_be.Reviews.Types.{ScanStatus, queued, running, done, AiScanStatus, ReviewPolicy}
use critiq_be.Queue.Mode.{ScanModeDecision}

pub data ScanTrigger : Type 0 where
  webhook manual rescan : ScanTrigger

pub record ScanRow : Type 0 where
  pub id : Text
  pub organization_id : Text
  pub repository_id : Text
  pub pull_id : Text
  pub head_sha : Text
  pub base_sha : Option Text
  pub status : ScanStatus
  pub trigger : ScanTrigger
  pub attempt : ℕ
  pub ruleset_version : Text
  pub rule_tiers : List RuleTier
  pub mode : ScanModeDecision
  pub ai_prompt_version : Option Text
  pub ai_locale : Option Text
  pub ai_status : Option AiScanStatus
  pub ai_reviewed : Bool
  pub error_message : Option Text

pub data JobState : Type 0 where
  waiting delayed prioritized active : JobState

pub record ScanJob : Type 0 where
  pub scan_id : Text
  pub state : JobState

pub record ScanStore : Type 0 where
  pub scans : List ScanRow
  pub jobs : List ScanJob
  pub published : List Text

pub record EnqueueScanInput : Type 0 where
  pub organization_id : Text
  pub repository_id : Text
  pub pull_id : Text
  pub head_sha : Text
  pub base_sha : Option Text
  pub trigger : ScanTrigger
  pub full : Bool

-- The columns of the pull request and its organization that `enqueue` reads.
pub record PullSettings : Type 0 where
  pub effective_policy : ReviewPolicy
  pub has_ai_provider : Bool
  pub has_ai_consent : Bool
  pub ai_locale : Option Text

pub data EnqueueResult : Type 0 where
  answered : (scan_id : Text) → ScanStatus → (deduplicated : Bool) → EnqueueResult
  queue_unavailable scan_not_found : EnqueueResult

abbrev pub Meanwhile : Type 0
Meanwhile = ScanStore → ScanStore

abbrev pub is_in_flight : ScanStatus → Bool
is_in_flight queued = true
is_in_flight running = true
is_in_flight _ = false

abbrev pub is_done : ScanStatus → Bool
is_done done = true
is_done _ = false

-- `WEBHOOK_DEDUPE_STATUSES.includes(status)`
abbrev pub is_dedupe_status : ScanStatus → Bool
is_dedupe_status s = is_in_flight s || is_done s

abbrev pub is_webhook : ScanTrigger → Bool
is_webhook webhook = true
is_webhook _ = false
