-- ===== src/Reviews/Deciding.antt =====
-- What `submit` of src/modules/reviews/reviews.service.ts lets through, and what it leaves behind.
use critiq_be.Prelude.{
  ℕ, ◌≡◌, refl, sym, ap, ◌∙◌, Bool, true, false, not, ◌&&◌, ◌||◌, some, List, [], ◌∷◌, Text,
  text_eq, text_eq_iff, anyb, findb, arith,
}
use critiq_be.Http.{
  HttpError, Result, ok, err, guard, pull_not_open, head_changed, already_reviewed, body_required,
}
use critiq_be.Reviews.Types.{Pull, Review, Store, truthy, is_open, is_approve, is_require_both}
use critiq_be.Reviews.Submit.{
  SubmitReviewDto, ai_reviewed_head, find_pull_or_throw, assert_require_both, is_mine, decided,
  trimmed_body, has_text, find_role, policy_check, checked_review, update_review, mark_failed,
  enqueue_sync, store_review, finish, submit, scan_on_head,
}
use critiq_be.Http.Inversion.{not-true, bind-ok, guard-ok, or_throw-ok, ok-injective}

-- What has to hold of an approval where the repository wants a human and the AI.
abbrev pub IsConfirmed : Pull → SubmitReviewDto → Type 0
IsConfirmed pull dto =
    (dto.manual_confirmation ≡ true) × (ai_reviewed_head pull.head_sha pull.latest_scan ≡ true)

-- The decision may be taken: the pull request is known and open, its head is the one that was
-- looked at, the decision is another than the reviewer's last one there, a request for changes says
-- what, and an approval satisfies the policy.
abbrev pub MayDecide :
    (ℕ → Bool) → Store → Text → Text → Text → Text → SubmitReviewDto → Pull → Type 0
MayDecide is_space s org repo pull_id actor dto pull =
    (find_pull_or_throw s org repo pull_id ≡ ok pull)
    × (is_open pull.state ≡ true)
    × (truthy pull.head_sha ≡ some dto.head_sha)
    × (decided (findb (is_mine pull_id actor dto.head_sha) s.reviews) dto.decision ≡ false)
    × ((is_approve dto.decision || has_text (trimmed_body is_space dto.body)) ≡ true)
    × ((is_approve dto.decision && is_require_both pull.effective_policy) ≡ true
        → IsConfirmed pull dto)

-- The review that is stored: the decision of the actor on the head.
abbrev pub Records : Text → Text → Text → SubmitReviewDto → Review → Type 0
Records new_id pull_id actor dto r =
    (r.id ≡ new_id)
    × (r.pull_id ≡ pull_id)
    × (r.reviewer_id ≡ some actor)
    × (r.head_sha ≡ dto.head_sha)
    × (r.decision ≡ dto.decision)

policy_check-ok :
    (pull : Pull) (dto : SubmitReviewDto)
    → policy_check pull dto ≡ ok tt
    → (is_approve dto.decision && is_require_both pull.effective_policy) ≡ true
    → IsConfirmed pull dto
unfolding assert_require_both
policy_check-ok pull dto e t =
    let asserted : assert_require_both pull dto.manual_confirmation ≡ ok tt = sym (rw t refl) ∙ e in
    let (confirmed, rest) = guard-ok dto.manual_confirmation _ _ tt asserted in
    let (scanned, rest') =
      guard-ok (scan_on_head pull.head_sha pull.latest_scan (λ _. true)) _ _ tt rest in
    (confirmed, guarded _ _ rest')
  where
    guarded : (c : Bool) (h : HttpError) → guard c h ≡ ok tt → c ≡ true
    guarded true h e = refl
    guarded false h e = cc

module _ (is_space : ℕ → Bool) (new_id : Text) (s : Store) (org repo pull_id actor : Text)
    (dto : SubmitReviewDto) where
  checked_review-ok :
      (r : Review)
      → checked_review is_space new_id s org repo pull_id actor dto ≡ ok r
      → ((pull : Pull) × MayDecide is_space s org repo pull_id actor dto pull)
        × Records new_id pull_id actor dto r
  unfolding checked_review
  checked_review-ok r e =
      let (pull, found, e1) = bind-ok (find_pull_or_throw s org repo pull_id) _ r e in
      let (opened, e2) = guard-ok (is_open pull.state) pull_not_open _ r e1 in
      let (head, headed, e3) = or_throw-ok (truthy pull.head_sha) head_changed _ r e2 in
      let (current, e4) = guard-ok (text_eq dto.head_sha head) head_changed _ r e3 in
      let (other, e5) =
        guard-ok (not (decided (findb (is_mine pull_id actor head) s.reviews) dto.decision))
          already_reviewed _ r e4 in
      let (worded, e6) =
        guard-ok (is_approve dto.decision || has_text (trimmed_body is_space dto.body))
          body_required _ r e5 in
      let (u, checked, e7) = bind-ok (policy_check pull dto) _ r e6 in
      let (m, member, e8) = bind-ok (find_role s actor org) _ r e7 in
      let same : head ≡ dto.head_sha = sym ((text_eq_iff _ _).0 current) in
      let stored = ok-injective _ r e8 in
      (
        (
          pull,
          (
            found,
            opened,
            headed ∙ ap some same,
            ap (λ h. decided (findb (is_mine pull_id actor h) s.reviews) dto.decision) (sym same)
                ∙ not-true _ other,
            worded,
            policy_check-ok pull dto checked,
          ),
        ),
        (
          ap (λ x. x.id) (sym stored),
          ap (λ x. x.pull_id) (sym stored),
          ap (λ x. x.reviewer_id) (sym stored),
          ap (λ x. x.head_sha) (sym stored) ∙ same,
          ap (λ x. x.decision) (sym stored),
        ),
      )

-- No stored review has this identifier.
abbrev pub IsFresh : Text → Store → Type 0
IsFresh id s = anyb (λ r. text_eq r.id id) s.reviews ≡ false

update_review-fresh :
    (id : Text) (f : Review → Review) (rs : List Review)
    → anyb (λ r. text_eq r.id id) rs ≡ false
    → update_review id f rs ≡ rs
unfolding update_review anyb
update_review-fresh id f [] h = refl
update_review-fresh id f (r ∷ rs) h = ground (arith, update_review-fresh id f rs)

-- A decision is stored: one review of it in front of the others, and nothing else changes in the
-- tables.
abbrev pub SubmitOutcome :
    (ℕ → Bool)
    → Text
    → Store
    → Text
    → Text
    → Text
    → Text
    → SubmitReviewDto
    → Store × Result Review
    → Type 0
SubmitOutcome is_space new_id s org repo pull_id actor dto (s', err h) = s' ≡ s
SubmitOutcome is_space new_id s org repo pull_id actor dto (s', ok r) =
    ((pull : Pull) × MayDecide is_space s org repo pull_id actor dto pull)
    × Records new_id pull_id actor dto r
    × (s'.reviews ≡ r ∷ s.reviews)
    × (s'.pulls ≡ s.pulls)
    × (s'.memberships ≡ s.memberships)

enqueue-stored :
    (accepts : Bool) (s : Store) (r : Review)
    → IsFresh r.id s
    → let done' = enqueue_sync accepts (store_review s r) r in
      (done'.0.reviews ≡ done'.1 ∷ s.reviews)
      × (done'.0.pulls ≡ s.pulls)
      × (done'.0.memberships ≡ s.memberships)
unfolding enqueue_sync
enqueue-stored true s r h = (refl, refl, refl)
enqueue-stored false s r h = (
  (unfold update_review in
      rw ((text_eq_iff r.id r.id).1 refl)
        (ap (λ rs. mark_failed r ∷ rs) (update_review-fresh r.id mark_failed s.reviews h))),
  refl,
  refl,
)

enqueue-Records :
    (accepts : Bool) (s : Store) (r : Review) (new_id pull_id actor : Text) (dto : SubmitReviewDto)
    → Records new_id pull_id actor dto r
    → Records new_id pull_id actor dto (enqueue_sync accepts s r).1
unfolding enqueue_sync
enqueue-Records true s r new_id pull_id actor dto h = h
enqueue-Records false s r new_id pull_id actor dto h = h

-- Submitting a decision either fails and leaves the store as it was, or the decision was allowed and
-- is stored, in front of the earlier reviews, as the actor's decision on the head that the request
-- names; the earlier reviews, pull requests and memberships stay as they were, whether or not the
-- queue takes the copy. The identifier of the new review is fresh.
pub submit_outcome :
    (is_space : ℕ → Bool) (new_id : Text) (accepts : Bool) (s : Store)
    (org repo pull_id actor : Text) (dto : SubmitReviewDto)
    → IsFresh new_id s
    → SubmitOutcome is_space new_id s org repo pull_id actor dto
        (submit is_space new_id accepts s org repo pull_id actor dto)
unfolding submit
submit_outcome is_space new_id accepts s org repo pull_id actor dto h =
    from_checked (checked_review is_space new_id s org repo pull_id actor dto) refl
  where
    from_checked :
        (c : Result Review)
        → checked_review is_space new_id s org repo pull_id actor dto ≡ c
        → SubmitOutcome is_space new_id s org repo pull_id actor dto (finish accepts s c)
    from_checked (err x) e = refl
    from_checked (ok r) e =
        let (allowed, recorded) =
          checked_review-ok is_space new_id s org repo pull_id actor dto r e in
        let fresh = ap (λ i. anyb (λ x. text_eq x.id i) s.reviews) recorded.0 ∙ h in
        let (rows, pulls, members) = enqueue-stored accepts s r fresh in
        (
          allowed,
          enqueue-Records accepts (store_review s r) r new_id pull_id actor dto recorded,
          rows,
          pulls,
          members,
        )
