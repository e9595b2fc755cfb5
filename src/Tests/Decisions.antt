-- ===== src/Tests/Decisions.antt =====
-- src/modules/reviews and src/queue/review-sync.processor.ts on one pull request.
use critiq_be.Prelude.{
  ℕ, ◌≡◌, refl, ◌↔◌, Bool, true, false, none, some, List, [], ◌∷◌, codes, findb, text_eq, ◌≤◌, anyb,
  nat_eq, starts_with,
}
use critiq_be.Http.{ok, err, already_reviewed}
use critiq_be.Reviews.Types.{
  open_pull, done, ai_done, require_both, approve, request_changes, pending, sync_failed, admin,
  reviewer, github, active, Scan, Pull, Review, Store,
}
use critiq_be.Reviews.Submit.{
  SubmitReviewDto, submit, find_pull_or_throw, checked_review, enqueue_sync, assert_require_both,
  ai_reviewed_head,
}
use critiq_be.Reviews.Retry.{retry_sync, Sent, refused, finished, process, send}
use critiq_be.Reviews.Blockers.{
  HeadReview, MergeBlockersInput, merge_blockers, latest_per_reviewer, approved_by_any,
  reviews_on_head, refused_by_any,
}
use critiq_be.Reviews.Merge.{
  MergePullDto, not_sent, sent_null, merged, merge, checked_merge, remaining_blockers, blockers_of,
}
use critiq_be.Reviews.Latest.{standing, reviews_by, latest_per_reviewer_lem}
use critiq_be.Reviews.Blocking.{IsMergeable, merge_blockers-nil}
use critiq_be.Reviews.Deciding.{IsFresh, SubmitOutcome, submit_outcome}
use critiq_be.Reviews.Again.{submit_again}
use critiq_be.Reviews.Merging.{MergeOutcome, merge_outcome}
use critiq_be.Reviews.Syncing.{Settles, settled_by, process-Settles, process_last_attempt}
use critiq_be.Reviews.Retrying.{RetryOutcome, retry_sync_outcome}

abbrev scan : Scan
scan = record {
  status = done;
  head_sha = codes "abc";
  ai_status = some ai_done;
  critical_count = 0;
}

abbrev pull : Pull
pull = record {
  id = codes "p";
  organization_id = codes "o";
  repository_id = codes "r";
  state = open_pull;
  head_sha = some (codes "abc");
  effective_policy = require_both;
  latest_scan = some scan;
  source = github;
  integration_state = active;
}

abbrev waiting : Review
waiting = record {
  id = codes "v";
  organization_id = codes "o";
  pull_id = codes "p";
  head_sha = codes "abc";
  decision = approve;
  body = none;
  reviewer_id = some (codes "bob");
  reviewer_role = reviewer;
  effective_policy = require_both;
  manual_confirmation = true;
  ai_assisted = true;
  sync_status = pending;
  sync_error = none;
}

abbrev store : Store
store = record {
  pulls = pull ∷ [];
  reviews = waiting ∷ [];
  memberships = record { user_id = codes "ann"; organization_id = codes "o"; role = admin } ∷ [];
  effects = [];
}

abbrev is_blank : ℕ → Bool
is_blank c = nat_eq c 32

abbrev approval : SubmitReviewDto
approval = record {
  decision = approve;
  head_sha = codes "abc";
  body = none;
  manual_confirmation = true;
}

abbrev merge_dto : MergePullDto
merge_dto = record {
  head_sha = codes "abc";
  delete_source_branch = false;
  override_critical = not_sent;
}

merge_outcome_example :
    MergeOutcome merged store
      (codes "o")
      (codes "r")
      (codes "p")
      (codes "ann")
      merge_dto
      (merge merged store (codes "o") (codes "r") (codes "p") (codes "ann") merge_dto)
merge_outcome_example =
    merge_outcome merged store (codes "o") (codes "r") (codes "p") (codes "ann") merge_dto

abbrev critical_store : Store
critical_store = record store {
  pulls = record pull { latest_scan = some (record scan { critical_count = 1 }) } ∷ [];
  memberships = record { user_id = codes "ann"; organization_id = codes "o"; role = reviewer } ∷ [];
}

-- A Reviewer who sends the override as null merges although a critical finding is active.
merge_with_null_override :
    (merge merged critical_store
      (codes "o")
      (codes "r")
      (codes "p")
      (codes "ann")
      (record merge_dto { override_critical = sent_null })).1
    ≡ ok (codes "abc")
unfolding merge checked_merge remaining_blockers text_eq find_pull_or_throw blockers_of
    merge_blockers approved_by_any latest_per_reviewer reviews_on_head refused_by_any
merge_with_null_override = refl

store-IsFresh : IsFresh (codes "w") store
unfolding anyb text_eq
store-IsFresh = refl

submit_outcome_example :
    SubmitOutcome is_blank
      (codes "w")
      store
      (codes "o")
      (codes "r")
      (codes "p")
      (codes "ann")
      approval
      (submit is_blank
        (codes "w")
        true
        store
        (codes "o")
        (codes "r")
        (codes "p")
        (codes "ann")
        approval)
submit_outcome_example =
    submit_outcome is_blank (codes "w") true store (codes "o") (codes "r") (codes "p") (codes "ann")
      approval store-IsFresh

abbrev stored : Review
stored = record {
  id = codes "w";
  organization_id = codes "o";
  pull_id = codes "p";
  head_sha = codes "abc";
  decision = approve;
  body = none;
  reviewer_id = some (codes "ann");
  reviewer_role = admin;
  effective_policy = require_both;
  manual_confirmation = true;
  ai_assisted = true;
  sync_status = pending;
  sync_error = none;
}

submitted :
    (submit is_blank
      (codes "w")
      true
      store
      (codes "o")
      (codes "r")
      (codes "p")
      (codes "ann")
      approval).1
    ≡ ok stored
unfolding submit checked_review find_pull_or_throw findb text_eq assert_require_both
    ai_reviewed_head enqueue_sync
submitted = refl

submit_again_example :
    let s' =
      (submit is_blank
        (codes "w")
        true
        store
        (codes "o")
        (codes "r")
        (codes "p")
        (codes "ann")
        approval).0 in
    submit is_blank (codes "z") true s' (codes "o") (codes "r") (codes "p") (codes "ann") approval
    ≡ (s', err already_reviewed)
submit_again_example =
    submit_again is_blank (codes "w") true store (codes "o") (codes "r") (codes "p") (codes "ann")
      approval stored (codes "z") true store-IsFresh submitted

abbrev failed_store : Store
failed_store = record store { reviews = record waiting { sync_status = sync_failed } ∷ [] }

abbrev untouched : List Review → List Review
untouched rows = rows

retry_sync_outcome_example :
    RetryOutcome untouched failed_store
      (codes "o")
      (codes "r")
      (codes "p")
      (codes "v")
      (retry_sync untouched true failed_store (codes "o") (codes "r") (codes "p") (codes "v"))
retry_sync_outcome_example =
    retry_sync_outcome untouched true failed_store (codes "o") (codes "r") (codes "p") (codes "v")

abbrev gone : Sent
gone = refused (codes "gone") true

process-Settles_example :
    Settles (codes "v") store.reviews (process store (codes "v") active 2 3 gone).0.reviews
process-Settles_example = process-Settles store (codes "v") active 2 3 gone

found_waiting : findb (λ x. text_eq x.id (codes "v")) store.reviews ≡ some waiting
unfolding findb text_eq
found_waiting = refl

process_last_attempt_example :
    let after = process store (codes "v") active 2 3 gone in
    (after.1 ≡ finished)
    × (findb (λ x. text_eq x.id (codes "v")) after.0.reviews
        ≡ some (settled_by (send active gone) waiting))
process_last_attempt_example =
    process_last_attempt store (codes "v") active 2 3 gone waiting refl found_waiting refl

abbrev newest_first : List HeadReview
newest_first =
    record { reviewer_id = some (codes "ann"); decision = approve }
    ∷ record { reviewer_id = none; decision = request_changes }
    ∷ record { reviewer_id = some (codes "ann"); decision = request_changes }
    ∷ []

latest_per_reviewer_lem_example :
    (standing (codes "ann") (latest_per_reviewer newest_first)
      ≡ standing (codes "ann") newest_first)
    × (reviews_by (codes "ann") (latest_per_reviewer newest_first) ≤ 1)
latest_per_reviewer_lem_example =
    latest_per_reviewer_lem (codes "ann") newest_first (unfold starts_with in refl)

abbrev blockers_input : MergeBlockersInput
blockers_input = record {
  state = open_pull;
  head_sha = some (codes "abc");
  latest_scan = some scan;
  reviews_on_head = record { reviewer_id = some (codes "ann"); decision = approve } ∷ [];
}

merge_blockers-nil_example : (merge_blockers blockers_input ≡ []) ↔ IsMergeable blockers_input
merge_blockers-nil_example = merge_blockers-nil blockers_input
