-- ===== src/Reviews/Again.antt =====
-- `submit` of src/modules/reviews/reviews.service.ts takes a decision once.
use critiq_be.Prelude.{
  ℕ, ◌≡◌, refl, ap, ◌∙◌, Bool, true, ◌&&◌, some, List, ◌∷◌, Text, text_eq, findb,
}
use critiq_be.Http.{HttpError, already_reviewed, Result, ok, err, ◌>>=◌, ◌>>◌, guard, or_throw}
use critiq_be.Reviews.Types.{
  Pull, Review, ReviewDecision, approve, request_changes, Store, truthy, is_open, same_decision,
}
use critiq_be.Reviews.Submit.{
  SubmitReviewDto, find_pull_or_throw, is_mine, decided, checked_review, submit,
}
use critiq_be.Http.Inversion.{text_eq_refl}
use critiq_be.Reviews.Deciding.{Records, IsFresh, SubmitOutcome, submit_outcome}

same_decision_refl : (d : ReviewDecision) → same_decision d d ≡ true
same_decision_refl approve = refl
same_decision_refl request_changes = refl

is_mine-own :
    (new_id pull_id actor : Text) (dto : SubmitReviewDto) (r : Review)
    → Records new_id pull_id actor dto r
    → is_mine pull_id actor dto.head_sha r ≡ true
is_mine-own new_id pull_id actor dto r (id, pull, who, head, _) =
    rw (pull, who, head, text_eq_refl pull_id, text_eq_refl actor, text_eq_refl dto.head_sha) refl

findb-first :
    (p : Review → Bool) (r : Review) (rs : List Review) → p r ≡ true → findb p (r ∷ rs) ≡ some r
unfolding findb
findb-first p r rs e = rw (e) refl

find_pull-same :
    (s s' : Store) (org repo pull_id : Text)
    → s'.pulls ≡ s.pulls
    → find_pull_or_throw s' org repo pull_id ≡ find_pull_or_throw s org repo pull_id
unfolding find_pull_or_throw
find_pull-same s s' org repo pull_id e =
    ap
      (λ ps. or_throw (findb (λ p. text_eq p.id pull_id) ps) HttpError.pull_not_found >>= λ pull.
        guard (text_eq pull.organization_id org && text_eq pull.repository_id repo)
          HttpError.pull_not_found
        >> ok pull)
      e

checked_review-again :
    (is_space : ℕ → Bool) (new_id : Text) (s : Store) (org repo pull_id actor : Text)
    (dto : SubmitReviewDto) (pull : Pull)
    → find_pull_or_throw s org repo pull_id ≡ ok pull
    → is_open pull.state ≡ true
    → truthy pull.head_sha ≡ some dto.head_sha
    → decided (findb (is_mine pull_id actor dto.head_sha) s.reviews) dto.decision ≡ true
    → checked_review is_space new_id s org repo pull_id actor dto ≡ err already_reviewed
unfolding checked_review
checked_review-again is_space new_id s org repo pull_id actor dto pull found opened headed mine =
    rw (found, opened, headed, text_eq_refl dto.head_sha, mine) refl

-- A decision that was stored is not stored twice: the same request, sent again by the same reviewer
-- while nothing else has changed, is refused as already reviewed and leaves the store as it is.
pub submit_again :
    (is_space : ℕ → Bool) (new_id : Text) (accepts : Bool) (s : Store)
    (org repo pull_id actor : Text) (dto : SubmitReviewDto) (r : Review) (next_id : Text)
    (accepts_next : Bool)
    → IsFresh new_id s
    → (submit is_space new_id accepts s org repo pull_id actor dto).1 ≡ ok r
    → let s' = (submit is_space new_id accepts s org repo pull_id actor dto).0 in
      submit is_space next_id accepts_next s' org repo pull_id actor dto
      ≡ (s', err already_reviewed)
submit_again is_space new_id accepts s org repo pull_id actor dto r next_id accepts_next h done' =
    after (submit is_space new_id accepts s org repo pull_id actor dto) done'
      (submit_outcome is_space new_id accepts s org repo pull_id actor dto h)
  where
    after :
        (p : Store × Result Review)
        → p.1 ≡ ok r
        → SubmitOutcome is_space new_id s org repo pull_id actor dto p
        → submit is_space next_id accepts_next p.0 org repo pull_id actor dto
          ≡ (p.0, err already_reviewed)
    after (s', err x) e o = cc
    after (s', ok x) e ((pull, (found, opened, headed, _, _, _)), recorded, rows, pulls, _) =
        unfold submit in
        rw
          (checked_review-again is_space next_id s' org repo pull_id actor dto pull
            (find_pull-same s s' org repo pull_id pulls ∙ found) opened headed
            (ap (λ rs. decided (findb (is_mine pull_id actor dto.head_sha) rs) dto.decision) rows
              ∙ ap (λ o. decided o dto.decision)
                  (findb-first (is_mine pull_id actor dto.head_sha) x s.reviews
                    (is_mine-own new_id pull_id actor dto x recorded))
              ∙ ap (λ d. same_decision d dto.decision) (recorded.4)
              ∙ same_decision_refl dto.decision))
          refl
