-- ===== src/Reviews/Submit.antt =====
-- `submit` of src/modules/reviews/reviews.service.ts: a reviewer's decision.
use critiq_be.Prelude.{
  ℕ, Bool, true, false, not, ◌&&◌, ◌||◌, Option, none, some, List, [], ◌∷◌, ◌++◌, Text, text_eq,
  findb, if◌then◌else◌,
}
use critiq_be.Similarity.{trim}
use critiq_be.Http.{
  pull_not_found, membership_not_found, pull_not_open, head_changed, already_reviewed,
  body_required, manual_confirmation_required, scan_required, ai_analysis_required, Result, ok, err,
  ◌>>=◌, ◌>>◌, guard, or_throw,
}
use critiq_be.Reviews.Types.{
  ReviewDecision, pending, sync_failed, Scan, Pull, Review, Membership, audit_review_submitted,
  sync_job, review_changed, Store, is_open, is_done, is_ai_done, is_approve, same_decision,
  is_require_both, is_text, truthy,
}

pub record SubmitReviewDto : Type 0 where
  pub decision : ReviewDecision
  pub head_sha : Text
  pub body : Option Text
  pub manual_confirmation : Bool

-- The scan of the very head is done, and a test of it holds.
abbrev pub scan_on_head : Option Text → Option Scan → (Scan → Bool) → Bool
scan_on_head head none test = false
scan_on_head head (some scan) test =
    is_done scan.status && (is_text head scan.head_sha && test scan)

unfoldable pub ai_reviewed_head : Option Text → Option Scan → Bool
ai_reviewed_head head scan = scan_on_head head scan (λ s. is_ai_done s.ai_status)

unfoldable pub find_pull_or_throw : Store → Text → Text → Text → Result Pull
unfolding findb
find_pull_or_throw s org repo pull_id = do
  pull ← or_throw (findb (λ p. text_eq p.id pull_id) s.pulls) pull_not_found
  guard (text_eq pull.organization_id org && text_eq pull.repository_id repo) pull_not_found
  ok pull

unfoldable pub assert_require_both : Pull → Bool → Result (Unit {0})
unfolding ai_reviewed_head
assert_require_both pull confirmed = do
  guard confirmed manual_confirmation_required
  guard (scan_on_head pull.head_sha pull.latest_scan (λ _. true)) scan_required
  guard (ai_reviewed_head pull.head_sha pull.latest_scan) ai_analysis_required

-- `{ pullId, reviewerId, headSha }`, the newest one first.
abbrev pub is_mine : Text → Text → Text → Review → Bool
is_mine pull_id user head r =
    text_eq r.pull_id pull_id && (is_text r.reviewer_id user && text_eq r.head_sha head)

abbrev pub decided : Option Review → ReviewDecision → Bool
decided none d = false
decided (some r) d = same_decision r.decision d

-- `dto.body?.trim() || null`
abbrev pub trimmed_body : (ℕ → Bool) → Option Text → Option Text
trimmed_body is_space none = none
trimmed_body is_space (some t) = truthy (some (trim is_space t))

abbrev pub has_text : Option Text → Bool
has_text none = false
has_text (some _) = true

abbrev pub find_role : Store → Text → Text → Result Membership
find_role s user org =
    or_throw (findb (λ m. text_eq m.user_id user && text_eq m.organization_id org) s.memberships)
      membership_not_found

abbrev pub policy_check : Pull → SubmitReviewDto → Result (Unit {0})
policy_check pull dto =
    if is_approve dto.decision && is_require_both pull.effective_policy
    then assert_require_both pull dto.manual_confirmation
    else ok tt

-- The body of `submit` up to the insert: the review to store, or the error.
unfoldable pub checked_review :
    (ℕ → Bool) → Text → Store → Text → Text → Text → Text → SubmitReviewDto → Result Review
unfolding find_pull_or_throw assert_require_both findb
checked_review is_space new_id s org repo pull_id actor dto = do
  pull ← find_pull_or_throw s org repo pull_id
  guard (is_open pull.state) pull_not_open
  head ← or_throw (truthy pull.head_sha) head_changed
  guard (text_eq dto.head_sha head) head_changed
  guard (not (decided (findb (is_mine pull_id actor head) s.reviews) dto.decision)) already_reviewed
  guard (is_approve dto.decision || has_text (trimmed_body is_space dto.body)) body_required
  policy_check pull dto
  membership ← find_role s actor org
  ok (record {
    id = new_id;
    organization_id = org;
    pull_id = pull_id;
    head_sha = head;
    decision = dto.decision;
    body = trimmed_body is_space dto.body;
    reviewer_id = some actor;
    reviewer_role = membership.role;
    effective_policy = pull.effective_policy;
    manual_confirmation = dto.manual_confirmation;
    ai_assisted = ai_reviewed_head pull.head_sha pull.latest_scan;
    sync_status = pending;
    sync_error = none;
  })

-- `pullReview.update({ where: { id }, data })`
unfoldable pub update_review : Text → (Review → Review) → List Review → List Review
update_review id f [] = []
update_review id f (r ∷ rs) =
    let rest = update_review id f rs in if text_eq r.id id then f r ∷ rest else r ∷ rest

abbrev pub unknown_error : Text
unknown_error = 117 ∷ 110 ∷ 107 ∷ 110 ∷ 111 ∷ 119 ∷ 110 ∷ []

abbrev pub mark_failed : Review → Review
mark_failed r = record r { sync_status = sync_failed; sync_error = some unknown_error }

-- `enqueueSync`: where the queue does not take the job, the copy is marked failed.
unfoldable pub enqueue_sync : Bool → Store → Review → Store × Review
unfolding update_review
enqueue_sync accepts s r =
    if accepts
    then (record s { effects = s.effects ++ sync_job r.id ∷ review_changed r.id ∷ [] }, r)
    else (
      record s {
        reviews = update_review r.id mark_failed s.reviews;
        effects = s.effects ++ review_changed r.id ∷ [];
      },
      mark_failed r,
    )

abbrev pub store_review : Store → Review → Store
store_review s r = record s {
  reviews = r ∷ s.reviews;
  effects = s.effects ++ audit_review_submitted r.id ∷ [];
}

abbrev pub finish : Bool → Store → Result Review → Store × Result Review
finish accepts s (err e) = (s, err e)
finish accepts s (ok r) = let (s', r') = enqueue_sync accepts (store_review s r) r in (s', ok r')

unfoldable pub submit :
    (ℕ → Bool)
    → Text
    → Bool
    → Store
    → Text
    → Text
    → Text
    → Text
    → SubmitReviewDto
    → Store × Result Review
submit is_space new_id accepts s org repo pull_id actor dto =
    finish accepts s (checked_review is_space new_id s org repo pull_id actor dto)
