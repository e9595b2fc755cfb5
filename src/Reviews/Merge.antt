-- ===== src/Reviews/Merge.antt =====
-- src/modules/reviews/merge.service.ts: merging a pull request from Critiq.
use critiq_be.Prelude.{
  Bool, true, false, not, ◌&&◌, ◌||◌, List, [], ◌∷◌, ◌++◌, Text, text_eq, anyb, filterb,
  if◌then◌else◌,
}
use critiq_be.Http.{
  HttpError, pull_not_open, head_changed, override_requires_admin, insufficient_permission,
  not_mergeable, provider_unreachable, provider_crashed, blocked_approval, blocked_changes,
  blocked_scan, blocked_critical, Result, ok, err, ◌>>=◌, ◌>>◌, guard, or_throw,
}
use critiq_be.Reviews.Types.{
  merged_pull, Role, admin, Pull, provider_merge, cancel_pending, pull_updated, audit_pull_merged,
  Store, is_open, truthy,
}
use critiq_be.Reviews.Submit.{find_pull_or_throw, find_role}
use critiq_be.Reviews.Retry.{is_unusable}
use critiq_be.Reviews.Blockers.{
  MergeBlocker, approval_required, changes_requested, scan_required, critical_findings,
  reviews_on_head, merge_blockers,
}
use critiq_be.Reviews.Blockers

-- `overrideCritical` of the body: left out, null, which `@IsOptional` lets through, or with its
-- reason.
pub data OverrideCritical : Type 0 where
  not_sent sent_null : OverrideCritical
  given : (reason : Text) → OverrideCritical

pub record MergePullDto : Type 0 where
  pub head_sha : Text
  pub delete_source_branch : Bool
  pub override_critical : OverrideCritical

-- Whether it is truthy, and whether it is not undefined.
abbrev pub is_given : OverrideCritical → Bool
is_given (given reason) = true
is_given _ = false

abbrev pub is_sent : OverrideCritical → Bool
is_sent not_sent = false
is_sent _ = true

abbrev pub is_admin : Role → Bool
is_admin admin = true
is_admin _ = false

abbrev pub is_critical_findings : MergeBlocker → Bool
is_critical_findings critical_findings = true
is_critical_findings _ = false

-- The message of the 422 for the first blocker that remains.
abbrev pub blocker_error : MergeBlocker → HttpError
blocker_error Blockers.pull_not_open = pull_not_open
blocker_error approval_required = blocked_approval
blocker_error changes_requested = blocked_changes
blocker_error scan_required = blocked_scan
blocker_error critical_findings = blocked_critical

unfoldable pub overrides : OverrideCritical → List MergeBlocker → Bool
unfolding anyb
overrides override blockers = is_sent override && anyb is_critical_findings blockers

unfoldable pub remaining_blockers : OverrideCritical → List MergeBlocker → List MergeBlocker
unfolding filterb overrides
remaining_blockers override blockers =
    filterb (λ b. not (overrides override blockers && is_critical_findings b)) blockers

abbrev pub refuse_first : List MergeBlocker → Result (Unit {0})
refuse_first [] = ok tt
refuse_first (b ∷ bs) = err (blocker_error b)

unfoldable pub blockers_of : Store → Pull → List MergeBlocker
blockers_of s pull = merge_blockers (record {
  state = pull.state;
  head_sha = pull.head_sha;
  latest_scan = pull.latest_scan;
  reviews_on_head = reviews_on_head s.reviews pull.id (truthy pull.head_sha);
})

-- `merge` up to the call of the provider: the pull request and its head.
unfoldable pub checked_merge :
    Store → Text → Text → Text → Text → MergePullDto → Result (Pull × Text)
checked_merge s org repo pull_id actor dto = do
  pull ← find_pull_or_throw s org repo pull_id
  guard (is_open pull.state) pull_not_open
  head ← or_throw (truthy pull.head_sha) head_changed
  guard (text_eq dto.head_sha head) head_changed
  membership ← find_role s actor org
  guard (not (is_given dto.override_critical) || is_admin membership.role) override_requires_admin
  refuse_first (remaining_blockers dto.override_critical (blockers_of s pull))
  guard (not (is_unusable pull.integration_state)) insufficient_permission
  ok (pull, head)

-- What the provider answers: `ProviderMergeError` codes, or any other error.
pub data MergeAnswer : Type 0 where
  merged stale conflicted forbidden unreachable crashed : MergeAnswer

-- `toHttpError`
abbrev pub merge_error : MergeAnswer → Result (Unit {0})
merge_error merged = ok tt
merge_error stale = err head_changed
merge_error conflicted = err not_mergeable
merge_error forbidden = err insufficient_permission
merge_error unreachable = err provider_unreachable
merge_error crashed = err provider_crashed

-- `updateMany({ where: { id, state: OPEN }, data: { state: MERGED } })`
abbrev pub close_merged : Pull → Pull
close_merged p = if is_open p.state then record p { state = merged_pull } else p

unfoldable pub mark_merged : Text → List Pull → List Pull
mark_merged id [] = []
mark_merged id (p ∷ ps) = (if text_eq p.id id then close_merged p else p) ∷ mark_merged id ps

abbrev pub after_merge : Store → Text → Text → Store
after_merge s pull_id head = record s {
  pulls = mark_merged pull_id s.pulls;
  effects =
      s.effects
      ++ provider_merge pull_id head
        ∷ cancel_pending pull_id
        ∷ pull_updated pull_id
        ∷ audit_pull_merged pull_id
        ∷ [];
}

abbrev pub merge_answered : Store → Text → MergeAnswer → Result (Pull × Text) → Store × Result Text
merge_answered s pull_id answer (err e) = (s, err e)
merge_answered s pull_id answer (ok (pull, head)) = elim (merge_error answer) [
  | ok _ ↦ (after_merge s pull_id head, ok head)
  | err e ↦ (s, err e)
]

unfoldable pub merge :
    MergeAnswer → Store → Text → Text → Text → Text → MergePullDto → Store × Result Text
merge answer s org repo pull_id actor dto =
    merge_answered s pull_id answer (checked_merge s org repo pull_id actor dto)
