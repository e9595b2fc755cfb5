-- ===== src/Findings.antt =====
-- prisma/schema.prisma's enums, as src/generated/prisma/enums passes them to the code, and the
-- findings of src/queue/lifecycle/plan-findings.ts. A confidence is a natural number of
-- millionths: the stored Decimal(3,2) and every answer with at most six decimals is one exactly.
use critiq_be.Prelude.{ℕ, Bool, true, false, Option, none, some, Text, ℤ}
use mathlib.Core.Bool.{decide}

pub data FindingSource : Type 0 where
  static ai : FindingSource

pub data FindingSeverity : Type 0 where
  critical major minor info : FindingSeverity

pub data FindingStatus : Type 0 where
  new persisted reopened resolved : FindingStatus

pub data SuppressionReason : Type 0 where
  test_file regex_literal comment dedupe_static : SuppressionReason

pub data FindingCategory : Type 0 where
  secret injection insecure_tls error_handling performance logic auth concurrency : FindingCategory
  data_loss config other crash breaking_change : FindingCategory

pub data RuleTier : Type 0 where
  secrets crash breaking_change error_handling performance security : RuleTier

unfoldable pub FindingSource-discrete : Discrete FindingSource
FindingSource-discrete = hlevel

unfoldable pub FindingSeverity-discrete : Discrete FindingSeverity
FindingSeverity-discrete = hlevel

unfoldable pub FindingCategory-discrete : Discrete FindingCategory
FindingCategory-discrete = hlevel

unfoldable pub RuleTier-discrete : Discrete RuleTier
RuleTier-discrete = hlevel

unfoldable pub same_source : FindingSource → FindingSource → Bool
unfolding FindingSource-discrete
same_source a b = decide (FindingSource-discrete a b)

unfoldable pub same_severity : FindingSeverity → FindingSeverity → Bool
unfolding FindingSeverity-discrete
same_severity a b = decide (FindingSeverity-discrete a b)

unfoldable pub same_category : FindingCategory → FindingCategory → Bool
unfolding FindingCategory-discrete
same_category a b = decide (FindingCategory-discrete a b)

unfoldable pub same_tier : RuleTier → RuleTier → Bool
unfolding RuleTier-discrete
same_tier a b = decide (RuleTier-discrete a b)

-- `a.category === b.category`, null included.
abbrev pub same_category? : Option FindingCategory → Option FindingCategory → Bool
same_category? none none = true
same_category? (some a) (some b) = same_category a b
same_category? _ _ = false

abbrev pub is_resolved : FindingStatus → Bool
is_resolved resolved = true
is_resolved _ = false

abbrev pub is_persisted : FindingStatus → Bool
is_persisted persisted = true
is_persisted _ = false

abbrev pub is_reopened : FindingStatus → Bool
is_reopened reopened = true
is_reopened _ = false

abbrev pub is_new : FindingStatus → Bool
is_new new = true
is_new _ = false

abbrev pub is_none {ℓ} : {A : Type ℓ} → Option A → Bool
is_none none = true
is_none (some _) = false

-- A finding row as read back from the database; an absent optional field is `none`.
pub record StoredFinding : Type 0 where
  pub id : Text
  pub source : FindingSource
  pub rule_id : Text
  pub severity : FindingSeverity
  pub title : Text
  pub message : Text
  pub file_path : Text
  pub line_start : ℤ
  pub line_end : ℤ
  pub snippet : Option Text
  pub fingerprint : Text
  pub suppressed_reason : Option SuppressionReason
  pub category : Option FindingCategory
  pub confidence : Option ℕ
  pub reported_severity : Option FindingSeverity
  pub previous_run_severity : Option FindingSeverity
  pub latest_run_severity : Option FindingSeverity
  pub not_reproduced : Option Bool
  pub first_seen_scan_id : Text
  pub dedupe_of_id : Option Text

-- A finding that the rules or the model of this scan just produced.
pub record CandidateFinding : Type 0 where
  pub source : FindingSource
  pub rule_id : Text
  pub severity : FindingSeverity
  pub title : Text
  pub message : Text
  pub file_path : Text
  pub line_start : ℤ
  pub line_end : ℤ
  pub snippet : Option Text
  pub fingerprint : Text
  pub suppressed_reason : Option SuppressionReason
  pub category : Option FindingCategory
  pub confidence : Option ℕ
  pub reported_severity : Option FindingSeverity
  pub dedupe_of_id : Option Text

-- A row ready to be stored. The columns that `fromCandidate` leaves out take the database's
-- defaults: null, and false for `not_reproduced`.
pub record FindingRow : Type 0 where
  pub id : Text
  pub source : FindingSource
  pub rule_id : Text
  pub severity : FindingSeverity
  pub title : Text
  pub message : Text
  pub file_path : Text
  pub line_start : ℤ
  pub line_end : ℤ
  pub snippet : Option Text
  pub fingerprint : Text
  pub suppressed_reason : Option SuppressionReason
  pub category : Option FindingCategory
  pub confidence : Option ℕ
  pub reported_severity : Option FindingSeverity
  pub dedupe_of_id : Option Text
  pub previous_run_severity : Option FindingSeverity
  pub latest_run_severity : Option FindingSeverity
  pub not_reproduced : Bool
  pub status : FindingStatus
  pub first_seen_scan_id : Text
  pub origin_finding_id : Option Text
  pub resolved_in_scan_id : Option Text
