-- ===== src/Queue/Enqueue.antt =====
-- `enqueue` and `cancelPending` of src/queue/scan-queue.service.ts. The scans are a list, newest
-- first; `meanwhile` is what other requests and workers commit between the read of the scans in
-- flight and their write, and again before the new scan is stored.
use critiq_be.Queue.Scans.{
  EnqueueResult, EnqueueScanInput, JobState, Meanwhile, PullSettings, ScanJob, ScanRow, ScanStore,
  ScanTrigger, active, answered, is_dedupe_status, is_done, is_in_flight, is_webhook,
  queue_unavailable, rescan, scan_not_found, waiting,
}
use critiq_be.Prelude.{
  ℕ, ◌+◌, Bool, true, false, not, ◌&&◌, ◌||◌, Option, none, some, List, [], ◌∷◌, ◌++◌, Text,
  text_eq, nat_eq, ltb, map, findb, filterb, anyb, codes, if◌then◌else◌,
}
use critiq_be.Findings.{RuleTier}
use critiq_be.Ai.Tiers.{enabled_tiers, same_tiers}
use critiq_be.Reviews.Types.{queued, failed, superseded, ReviewPolicy}
use critiq_be.Queue.Mode.{BaseScan, ScanModeInput, ScanModeDecision, decide_scan_mode}

-- `{ repositoryId, pullId, headSha }`
abbrev pub is_for_sha : EnqueueScanInput → ScanRow → Bool
is_for_sha input r =
    text_eq r.repository_id input.repository_id
    && (text_eq r.pull_id input.pull_id && text_eq r.head_sha input.head_sha)

abbrev pub later_attempt : ScanRow → Option ScanRow → ScanRow
later_attempt r none = r
later_attempt r (some best) = if ltb r.attempt best.attempt then best else r

-- `findFirst({ where, orderBy: { attempt: 'desc' } })`
unfoldable pub latest_attempt : (ScanRow → Bool) → List ScanRow → Option ScanRow
latest_attempt test [] = none
latest_attempt test (r ∷ rest) =
    let best = latest_attempt test rest in if test r then some (later_attempt r best) else best

abbrev pub pending_of : (pull_id : Text) → ScanRow → Bool
pending_of pull_id r = text_eq r.pull_id pull_id && is_in_flight r.status

abbrev pub is_removable : JobState → Bool
is_removable active = false
is_removable _ = true

abbrev pub ids_of : List ScanRow → List Text
ids_of rows = map (λ r. r.id) rows

abbrev pub is_among : List Text → Text → Bool
is_among ids id = anyb (λ i. text_eq i id) ids

abbrev pub supersede : ScanRow → ScanRow
supersede r = record r { status = superseded }

-- `updateMany({ where: { id: { in: ids }, status in flight }, data })`
abbrev pub supersede_among : List Text → ScanRow → ScanRow
supersede_among ids r = if is_among ids r.id && is_in_flight r.status then supersede r else r

abbrev pub without_jobs : List Text → List ScanJob → List ScanJob
without_jobs ids jobs = filterb (λ j. not (is_among ids j.scan_id && is_removable j.state)) jobs

-- The part of `cancelPending` after the read; it publishes when it changed a row.
abbrev pub cancel_among : List Text → ScanStore → ScanStore
cancel_among [] s = s
cancel_among (i ∷ ids) s = record s {
  scans = map (supersede_among (i ∷ ids)) s.scans;
  jobs = without_jobs (i ∷ ids) s.jobs;
  published =
      if anyb (λ r. is_among (i ∷ ids) r.id && is_in_flight r.status) s.scans
      then s.published ++ (i ∷ ids)
      else s.published;
}

unfoldable pub cancel_pending : Meanwhile → ScanStore → (pull_id : Text) → ScanStore
unfolding filterb anyb
cancel_pending meanwhile s pull_id =
    cancel_among (ids_of (filterb (pending_of pull_id) s.scans)) (meanwhile s)

abbrev pub next_attempt : Option ScanRow → ℕ
next_attempt none = 1
next_attempt (some r) = r.attempt + 1

abbrev pub as_base : ScanRow → BaseScan
as_base r = record {
  id = r.id;
  head_sha = r.head_sha;
  ruleset_version = r.ruleset_version;
  ai_prompt_version = r.ai_prompt_version;
  ai_locale = r.ai_locale;
  ai_status = r.ai_status;
  ai_reviewed = r.ai_reviewed;
  rule_tiers = r.rule_tiers;
}

abbrev pub base_of : Option ScanRow → Option BaseScan
base_of none = none
base_of (some r) = some (as_base r)

abbrev pub policy_of : Option PullSettings → Option ReviewPolicy
policy_of none = none
policy_of (some p) = some p.effective_policy

abbrev pub is_ai_enabled : Option PullSettings → Bool
is_ai_enabled none = false
is_ai_enabled (some p) = p.has_ai_provider && p.has_ai_consent

abbrev pub locale_of : Option PullSettings → Option Text
locale_of none = none
locale_of (some p) = p.ai_locale

abbrev pub disabled_of : Option (List RuleTier) → List RuleTier
disabled_of none = []
disabled_of (some tiers) = tiers

-- `@@unique([repositoryId, pullId, headSha, attempt])`
abbrev pub is_same_attempt : EnqueueScanInput → ℕ → ScanRow → Bool
is_same_attempt input attempt r = is_for_sha input r && nat_eq r.attempt attempt

abbrev pub mark_failed : ScanRow → ScanRow
mark_failed r = record r {
  status = failed;
  error_message = some (codes "Could not enqueue scan job (queue unavailable).");
}

-- `scan.update({ where: { id }, data })`
abbrev pub fail_scan : Text → ScanRow → ScanRow
fail_scan id r = if text_eq r.id id then mark_failed r else r

abbrev pub conflict_answer : Option ScanRow → EnqueueResult
conflict_answer none = scan_not_found
conflict_answer (some r) = answered r.id r.status true

abbrev pub with_job : Bool → ScanStore → Text → ScanStore × EnqueueResult
with_job accepts s id =
    if accepts
    then (
      record s {
        jobs = record { scan_id = id; state = waiting } ∷ s.jobs;
        published = s.published ++ id ∷ [];
      },
      answered id queued false,
    )
    else (
      record s { scans = map (fail_scan id) s.scans; published = s.published ++ id ∷ [] },
      queue_unavailable,
    )

module _ (ruleset_version prompt_version : Text) where
  abbrev pub is_stale : List RuleTier → ScanRow → Bool
  is_stale tiers r =
      is_done r.status
      && (not (text_eq r.ruleset_version ruleset_version) || not (same_tiers r.rule_tiers tiers))

  abbrev pub is_stale_latest : List RuleTier → Option ScanRow → Bool
  is_stale_latest tiers none = false
  is_stale_latest tiers (some r) = is_stale tiers r

  abbrev pub final_trigger : ScanTrigger → Bool → ScanTrigger
  final_trigger trigger stale = if is_webhook trigger && stale then rescan else trigger

  -- The scan that a webhook for the same sha answers with.
  unfoldable pub duplicate : EnqueueScanInput → List RuleTier → Option ScanRow → Option ScanRow
  duplicate input tiers none = none
  duplicate input tiers (some r) =
      if is_webhook input.trigger && (is_dedupe_status r.status && not (is_stale tiers r))
      then some r
      else none

  abbrev pub mode_input :
      EnqueueScanInput → List RuleTier → Option PullSettings → List ScanRow → ScanModeInput
  mode_input input tiers pull scans = record {
    base = base_of (findb (λ r. text_eq r.pull_id input.pull_id && is_done r.status) scans);
    full = input.full;
    effective_policy = policy_of pull;
    ai_enabled = is_ai_enabled pull;
    locale = locale_of pull;
    rule_tiers = tiers;
  }

  abbrev pub new_scan :
      Text → EnqueueScanInput → List RuleTier → Option ScanRow → ScanModeDecision → ScanRow
  new_scan id input tiers latest mode = record {
    id = id;
    organization_id = input.organization_id;
    repository_id = input.repository_id;
    pull_id = input.pull_id;
    head_sha = input.head_sha;
    base_sha = input.base_sha;
    status = queued;
    trigger = final_trigger input.trigger (is_stale_latest tiers latest);
    attempt = next_attempt latest;
    ruleset_version = ruleset_version;
    rule_tiers = tiers;
    mode = mode;
    ai_prompt_version = none;
    ai_locale = none;
    ai_status = none;
    ai_reviewed = false;
    error_message = none;
  }

  abbrev pub create_scan : Bool → EnqueueScanInput → ScanRow → ScanStore → ScanStore × EnqueueResult
  create_scan accepts input scan s =
      if anyb (is_same_attempt input scan.attempt) s.scans
      then (s, conflict_answer (latest_attempt (is_for_sha input) s.scans))
      else with_job accepts (record s { scans = scan ∷ s.scans }) scan.id

  abbrev pub enqueue_new :
      Bool
      → Meanwhile
      → Text
      → ScanStore
      → EnqueueScanInput
      → List RuleTier
      → Option PullSettings
      → Option ScanRow
      → ScanStore × EnqueueResult
  enqueue_new accepts before_create id s input tiers pull latest =
      create_scan accepts input
        (new_scan id input tiers latest
          (decide_scan_mode ruleset_version prompt_version (mode_input input tiers pull s.scans)))
        (before_create s)

  abbrev pub enqueue_after :
      Bool
      → (in_cancel before_create : Meanwhile) → Text
      → ScanStore
      → EnqueueScanInput
      → List RuleTier
      → Option PullSettings
      → Option ScanRow
      → Option ScanRow
      → ScanStore × EnqueueResult
  enqueue_after accepts in_cancel before_create id s input tiers pull latest (some r) =
      (s, answered r.id r.status true)
  enqueue_after accepts in_cancel before_create id s input tiers pull latest none =
      enqueue_new accepts before_create id (cancel_pending in_cancel s input.pull_id) input tiers
        pull latest

  -- `accepts`: whether the queue takes the job. `organization_tiers` and `pull`: what the queries of
  -- the organization and of the pull request find.
  unfoldable pub enqueue :
      Bool
      → (in_cancel before_create : Meanwhile) → (new_id : Text)
      → (organization_tiers : Option (List RuleTier)) → Option PullSettings
      → ScanStore
      → EnqueueScanInput
      → ScanStore × EnqueueResult
  unfolding latest_attempt duplicate
  enqueue accepts in_cancel before_create new_id organization_tiers pull s input =
      let tiers = enabled_tiers (disabled_of organization_tiers) in
      let latest = latest_attempt (is_for_sha input) s.scans in
      enqueue_after accepts in_cancel before_create new_id s input tiers pull latest
        (duplicate input tiers latest)
