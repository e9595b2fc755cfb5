-- ===== src/Reviews/Retrying.antt =====
-- What `retrySync` of src/modules/reviews/reviews.service.ts lets through, and who wins a race.
use critiq_be.Prelude.{
  ℕ, ◌≡◌, refl, sym, ap, ◌∙◌, Bool, true, false, not, ◌&&◌, List, [], ◌∷◌, Text, text_eq, leb, anyb,
  arith, Bool-cases, inl, inr,
}
use critiq_be.Http.{sync_in_progress, already_synced, head_changed, Result, ok, err}
use critiq_be.Reviews.Types.{
  ReviewSyncStatus, pending, synced, sync_failed, Pull, Review, Store, is_pending, is_sync_failed,
  is_text,
}
use critiq_be.Reviews.Submit.{find_pull_or_throw, enqueue_sync}
use critiq_be.Reviews.Retry.{
  is_synced, find_review, checked_retry, mark_pending, update_where, Interference, retried,
  retry_write, retry_sync,
}
use critiq_be.Http.Inversion.{bind-ok, guard-ok, ok-injective}

-- Some stored review of the identifier is FAILED.
abbrev pub is_failed_in : Text → List Review → Bool
is_failed_in id rows = anyb (λ r. text_eq r.id id && is_sync_failed r.sync_status) rows

abbrev pub MayRetry : Store → Text → Text → Text → Text → Review → Type 0
MayRetry s org repo pull_id review_id review =
    (find_review s org pull_id review_id ≡ ok review)
    × (is_sync_failed review.sync_status ≡ true)
    × ((pull : Pull) × (find_pull_or_throw s org repo pull_id ≡ ok pull)
        × (is_text pull.head_sha review.head_sha ≡ true))

failed_of :
    (st : ReviewSyncStatus)
    → not (is_synced st) ≡ true
    → not (is_pending st) ≡ true
    → is_sync_failed st ≡ true
failed_of pending h k = cc
failed_of synced h k = cc
failed_of sync_failed h k = refl

checked_retry-ok :
    (s : Store) (org repo pull_id review_id : Text) (r : Review)
    → checked_retry s org repo pull_id review_id ≡ ok r
    → MayRetry s org repo pull_id review_id r
unfolding checked_retry
checked_retry-ok s org repo pull_id review_id r e =
    let (pull, found, e1) = bind-ok (find_pull_or_throw s org repo pull_id) _ _ e in
    let (review, listed, e2) = bind-ok (find_review s org pull_id review_id) _ _ e1 in
    let (open_copy, e3) = guard-ok (not (is_synced review.sync_status)) already_synced _ _ e2 in
    let (idle, e4) = guard-ok (not (is_pending review.sync_status)) sync_in_progress _ _ e3 in
    let (current, e5) = guard-ok (is_text pull.head_sha review.head_sha) head_changed _ _ e4 in
    let same = ok-injective review r e5 in
    (
      listed ∙ ap ok same,
      ap (λ x. is_sync_failed x.sync_status) (sym same)
          ∙ failed_of review.sync_status open_copy idle,
      (pull, found, ap (λ x. is_text pull.head_sha x.head_sha) (sym same) ∙ current),
    )

-- The conditional write changes nothing exactly where no row is FAILED.
update_where_lem :
    (id : Text) (f : Review → Review) (rs : List Review)
    → let (rows, n) = update_where id is_sync_failed f rs in
      (leb n 0 ≡ true → rows ≡ rs) × (leb n 0 ≡ not (is_failed_in id rs))
unfolding update_where anyb
update_where_lem id f [] = ((λ e. refl), refl)
update_where_lem id f (r ∷ rs) = ground (arith, update_where_lem id f rs)

abbrev pub RetryOutcome :
    Interference → Store → Text → Text → Text → Text → Store × Result Review → Type 0
RetryOutcome meanwhile s org repo pull_id review_id (s', err h) =
    (s'.reviews ≡ meanwhile s.reviews) × (s'.effects ≡ s.effects)
RetryOutcome meanwhile s org repo pull_id review_id (s', ok r) =
    (review : Review) × MayRetry s org repo pull_id review_id review
    × (r.decision ≡ review.decision)
    × (is_failed_in review.id (meanwhile s.reviews) ≡ true)

enqueue-decision :
    (accepts : Bool) (s : Store) (r : Review) → (enqueue_sync accepts s r).1.decision ≡ r.decision
unfolding enqueue_sync
enqueue-decision true s r = refl
enqueue-decision false s r = refl

not-false : (b : Bool) → false ≡ not b → b ≡ true
not-false true e = refl
not-false false e = cc

retried-outcome :
    (meanwhile : Interference) (accepts : Bool) (s : Store) (org repo pull_id review_id : Text)
    (review : Review) (rows : List Review) (n : ℕ)
    → MayRetry s org repo pull_id review_id review
    → (leb n 0 ≡ true → rows ≡ meanwhile s.reviews)
    → leb n 0 ≡ not (is_failed_in review.id (meanwhile s.reviews))
    → RetryOutcome meanwhile s org repo pull_id review_id
        (retried accepts (record s { reviews = rows }) review n)
retried-outcome meanwhile accepts s org repo pull_id review_id review rows n may same won =
    elim (Bool-cases (leb n 0)) [
      | inl e ↦ rw (e) (same e, refl)
      | inr e ↦ rw (e) (
        review,
        may,
        enqueue-decision accepts (record s { reviews = rows }) (mark_pending review),
        not-false _ (sym e ∙ won),
      )
    ]

-- Retrying a copy either fails, and then leaves the reviews as other requests left them meanwhile
-- and does nothing else, or the review was read as FAILED, its decision is on the current head of the
-- pull request, and a row of it was still FAILED when it was written: of two requests that both read
-- FAILED, the one that finds the copy pending already is refused.
pub retry_sync_outcome :
    (meanwhile : Interference) (accepts : Bool) (s : Store) (org repo pull_id review_id : Text)
    → RetryOutcome meanwhile s org repo pull_id review_id
        (retry_sync meanwhile accepts s org repo pull_id review_id)
unfolding retry_sync
retry_sync_outcome meanwhile accepts s org repo pull_id review_id =
    from_checked (checked_retry s org repo pull_id review_id) refl
  where
    from_checked :
        (c : Result Review)
        → checked_retry s org repo pull_id review_id ≡ c
        → RetryOutcome meanwhile s org repo pull_id review_id
            (retry_write accepts (record s { reviews = meanwhile s.reviews }) c)
    from_checked (err h) e = (refl, refl)
    from_checked (ok review) e =
        let written = update_where_lem review.id mark_pending (meanwhile s.reviews) in
        let (rows, n) = update_where review.id is_sync_failed mark_pending (meanwhile s.reviews) in
        retried-outcome meanwhile accepts s org repo pull_id review_id review rows n
          (checked_retry-ok s org repo pull_id review_id review e) written.0 written.1
