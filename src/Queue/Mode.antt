-- ===== src/Queue/Mode.antt =====
-- `decideScanMode` of src/queue/scan-queue.service.ts: whether a scan looks at the whole pull request
-- or at what was pushed since the last finished scan. The versions of the rules and of the prompt
-- that the program is built with are parameters.
use critiq_be.Prelude.{
  Bool, true, false, not, ◌&&◌, ◌||◌, Option, none, some, List, Text, text_eq, if◌then◌else◌,
}
use critiq_be.Findings.{RuleTier}
use critiq_be.Ai.Tiers.{same_tiers}
use critiq_be.Reviews.Types.{
  AiScanStatus, skipped_too_large, budget_exceeded, ReviewPolicy, manual_only,
}

pub data DiffMode : Type 0 where
  full incremental : DiffMode

pub data FullReason : Type 0 where
  first_scan force_push ruleset_changed prompt_changed manual rules_changed : FullReason

pub record BaseScan : Type 0 where
  pub id : Text
  pub head_sha : Text
  pub ruleset_version : Text
  pub ai_prompt_version : Option Text
  pub ai_locale : Option Text
  pub ai_status : Option AiScanStatus
  pub ai_reviewed : Bool
  pub rule_tiers : List RuleTier

pub record ScanModeInput : Type 0 where
  pub base : Option BaseScan
  pub full : Bool
  pub effective_policy : Option ReviewPolicy
  pub ai_enabled : Bool
  pub locale : Option Text
  pub rule_tiers : List RuleTier

pub record ScanModeDecision : Type 0 where
  pub diff_mode : DiffMode
  pub full_reason : Option FullReason
  pub base_scan_id : Option Text
  pub prev_head_sha : Option Text

-- `INCREMENTAL_AFTER_AI_SKIP.includes(status)` for a status that is not null
abbrev pub is_ai_skip : Option AiScanStatus → Bool
is_ai_skip (some skipped_too_large) = true
is_ai_skip (some budget_exceeded) = true
is_ai_skip _ = false

abbrev pub is_manual_only : Option ReviewPolicy → Bool
is_manual_only (some manual_only) = true
is_manual_only _ = false

-- `old !== null && old !== now`
abbrev pub is_other : Option Text → Text → Bool
is_other none now = false
is_other (some old) now = not (text_eq old now)

abbrev pub is_locale_changed : Option Text → Option Text → Bool
is_locale_changed old none = false
is_locale_changed old (some now) = is_other old now

abbrev pub base_id : Option BaseScan → Option Text
base_id none = none
base_id (some base) = some base.id

abbrev pub full_decision : Option BaseScan → FullReason → ScanModeDecision
full_decision base reason = record {
  diff_mode = full;
  full_reason = some reason;
  base_scan_id = base_id base;
  prev_head_sha = none;
}

abbrev pub incremental_decision : BaseScan → ScanModeDecision
incremental_decision base = record {
  diff_mode = incremental;
  full_reason = none;
  base_scan_id = some base.id;
  prev_head_sha = some base.head_sha;
}

module _ (ruleset_version prompt_version : Text) where
  abbrev pub is_prompt_changed : ScanModeInput → BaseScan → Bool
  is_prompt_changed input base =
      (is_other base.ai_prompt_version prompt_version
        || is_locale_changed base.ai_locale input.locale)
      && not (is_manual_only input.effective_policy)

  -- The AI will review the scan, and did not review its base.
  abbrev pub lacks_review : ScanModeInput → BaseScan → Bool
  lacks_review input base =
      input.ai_enabled
      && (not (is_manual_only input.effective_policy)
          && (not base.ai_reviewed && not (is_ai_skip base.ai_status)))

  abbrev pub mode_on : ScanModeInput → BaseScan → ScanModeDecision
  mode_on input base =
      if input.full
      then full_decision (some base) manual
      else if not (text_eq base.ruleset_version ruleset_version)
      then full_decision (some base) ruleset_changed
      else if not (same_tiers base.rule_tiers input.rule_tiers)
      then full_decision (some base) rules_changed
      else if is_prompt_changed input base
      then full_decision (some base) prompt_changed
      else if lacks_review input base
      then full_decision (some base) first_scan
      else incremental_decision base

  abbrev pub mode_from : ScanModeInput → Option BaseScan → ScanModeDecision
  mode_from input none = full_decision none first_scan
  mode_from input (some base) = mode_on input base

  unfoldable pub decide_scan_mode : ScanModeInput → ScanModeDecision
  decide_scan_mode input = mode_from input input.base
