-- ===== src/Queue/Enqueued.antt =====
-- `enqueue` of src/queue/scan-queue.service.ts as a whole request, with no other between its steps.
use critiq_be.Prelude.{
  ◌≡◌, filterb, Bool, true, false, ◌⊎◌, Option, some, List, [], ◌∷◌, Text, text_eq, anyb,
}
use mathlib.Core.Option
use critiq_be.Findings.{RuleTier}
use critiq_be.Ai.Tiers.{same_tiers}
use critiq_be.Reviews.Types.{ScanStatus, queued, running}
use critiq_be.Queue.Scans.{
  ScanRow, ScanStore, EnqueueScanInput, EnqueueResult, answered, queue_unavailable, webhook,
}
use critiq_be.Queue.Enqueue.{is_for_sha, latest_attempt, pending_of}

-- A status that a webhook is answered with: in flight, or done under the same rules and tiers.
abbrev pub IsCurrent : ScanStatus → (kept_rules kept_tiers : Bool) → Type 0
IsCurrent status kept_rules kept_tiers =
    (status ≡ queued)
    ⊎ ((status ≡ running)
        ⊎ ((status ≡ ScanStatus.done) × (kept_rules ≡ true) × (kept_tiers ≡ true)))

module _ (ruleset_version prompt_version : Text) where
  -- Queued, running, or done under today's rules and tiers.
  abbrev pub IsLive : List RuleTier → ScanRow → Type 0
  IsLive tiers r =
      IsCurrent r.status (text_eq r.ruleset_version ruleset_version) (same_tiers r.rule_tiers tiers)

  -- The scan of the sha that a webhook is answered with.
  abbrev pub IsDuplicate : EnqueueScanInput → List RuleTier → ScanStore → ScanRow → Type 0
  IsDuplicate input tiers s r =
      (latest_attempt (is_for_sha input) s.scans ≡ some r)
      × (input.trigger ≡ webhook)
      × IsLive tiers r

  -- What the queue's answer leaves of the pull request's scans in flight.
  abbrev pub Leaves : Bool → (id pull sha : Text) → ScanStore × EnqueueResult → Type 0
  Leaves accepts id pull sha finished =
      ((accepts ≡ true)
        × (finished.1 ≡ answered id queued false)
        × ((r : ScanRow) × (filterb (pending_of pull) finished.0.scans ≡ r ∷ [])
            × (r.id ≡ id)
            × (r.head_sha ≡ sha))
        × (anyb (λ j. text_eq j.scan_id id) finished.0.jobs ≡ true))
      ⊎ ((accepts ≡ false)
          × (finished.1 ≡ queue_unavailable)
          × (filterb (pending_of pull) finished.0.scans ≡ []))
