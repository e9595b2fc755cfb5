-- ===== src/Reviews/Types.antt =====
-- The records and errors of src/modules/reviews, as the queries of the services load them
-- (prisma/schema.prisma). The database is a store of lists: reviews newest first, as every query
-- orders them. Provider calls, queues and publications are inputs and recorded effects.
use critiq_be.Prelude.{ℕ, Bool, true, false, Option, none, some, List, [], ◌∷◌, Text, text_eq, ◌≡◌}

pub data PullRequestState : Type 0 where
  open_pull closed_pull merged_pull : PullRequestState

pub data ScanStatus : Type 0 where
  queued running done failed superseded : ScanStatus

pub data AiScanStatus : Type 0 where
  ai_queued ai_running ai_done ai_cached ai_failed skipped_manual_mode : AiScanStatus
  consent_required not_configured skipped_too_large budget_exceeded : AiScanStatus

pub data ReviewPolicy : Type 0 where
  manual_only allow_ai require_both : ReviewPolicy

pub data ReviewDecision : Type 0 where
  approve request_changes : ReviewDecision

pub data ReviewSyncStatus : Type 0 where
  pending synced sync_failed : ReviewSyncStatus

pub data Role : Type 0 where
  admin reviewer viewer : Role

pub data Provider : Type 0 where
  github gitlab : Provider

pub data IntegrationState : Type 0 where
  active expiring_soon token_expired invalid pending_approval uninstalled suspended :
      IntegrationState

pub record Scan : Type 0 where
  pub status : ScanStatus
  pub head_sha : Text
  pub ai_status : Option AiScanStatus
  pub critical_count : ℕ

pub record Pull : Type 0 where
  pub id : Text
  pub organization_id : Text
  pub repository_id : Text
  pub state : PullRequestState
  pub head_sha : Option Text
  pub effective_policy : ReviewPolicy
  pub latest_scan : Option Scan
  pub source : Provider
  pub integration_state : IntegrationState

pub record Review : Type 0 where
  pub id : Text
  pub organization_id : Text
  pub pull_id : Text
  pub head_sha : Text
  pub decision : ReviewDecision
  pub body : Option Text
  pub reviewer_id : Option Text
  pub reviewer_role : Role
  pub effective_policy : ReviewPolicy
  pub manual_confirmation : Bool
  pub ai_assisted : Bool
  pub sync_status : ReviewSyncStatus
  pub sync_error : Option Text

pub record Membership : Type 0 where
  pub user_id : Text
  pub organization_id : Text
  pub role : Role

-- What a request leaves behind outside the tables.
pub data Effect : Type 0 where
  audit_review_submitted : Text → Effect
  sync_job : Text → Effect
  review_changed : Text → Effect
  provider_merge : Text → Text → Effect
  cancel_pending : Text → Effect
  pull_updated : Text → Effect
  audit_pull_merged : Text → Effect

pub record Store : Type 0 where
  pub pulls : List Pull
  pub reviews : List Review
  pub memberships : List Membership
  pub effects : List Effect

abbrev pub is_open : PullRequestState → Bool
is_open open_pull = true
is_open _ = false

abbrev pub is_done : ScanStatus → Bool
is_done done = true
is_done _ = false

-- `AI_DONE.includes(scan.aiStatus)`; null is not done.
abbrev pub is_ai_done : Option AiScanStatus → Bool
is_ai_done (some ai_done) = true
is_ai_done (some ai_cached) = true
is_ai_done _ = false

abbrev pub is_approve : ReviewDecision → Bool
is_approve approve = true
is_approve request_changes = false

abbrev pub same_decision : ReviewDecision → ReviewDecision → Bool
same_decision approve approve = true
same_decision request_changes request_changes = true
same_decision _ _ = false

abbrev pub is_pending : ReviewSyncStatus → Bool
is_pending pending = true
is_pending _ = false

abbrev pub is_sync_failed : ReviewSyncStatus → Bool
is_sync_failed sync_failed = true
is_sync_failed _ = false

abbrev pub is_require_both : ReviewPolicy → Bool
is_require_both require_both = true
is_require_both _ = false

-- `a === b` for a nullable text.
abbrev pub is_text : Option Text → Text → Bool
is_text none t = false
is_text (some s) t = text_eq s t

-- `pull.headSha`, where an empty text counts as none: `!pull.headSha`.
abbrev pub truthy : Option Text → Option Text
truthy (some (c ∷ s)) = some (c ∷ s)
truthy _ = none

pub truthy-some : (o : Option Text) (t : Text) → truthy o ≡ some t → o ≡ some t
truthy-some none t e = cc
truthy-some (some []) t e = cc
truthy-some (some (c ∷ s)) t e = e
