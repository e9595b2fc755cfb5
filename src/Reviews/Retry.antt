-- ===== src/Reviews/Retry.antt =====
-- `retrySync` of src/modules/reviews/reviews.service.ts and `process` of
-- src/queue/review-sync.processor.ts: the copy of a decision at the provider.
use critiq_be.Prelude.{
  ℕ, ◌+◌, Bool, true, false, not, ◌&&◌, Option, none, some, List, [], ◌∷◌, ◌++◌, Text, text_eq, leb,
  findb, if◌then◌else◌,
}
use critiq_be.Http.{
  review_not_found, already_synced, sync_in_progress, head_changed, Result, ok, err, ◌>>=◌, ◌>>◌,
  guard, or_throw,
}
use critiq_be.Reviews.Types.{
  ReviewSyncStatus, pending, synced, sync_failed, Review, Store, review_changed, is_pending,
  is_sync_failed, is_text, IntegrationState, active, expiring_soon,
}
use critiq_be.Reviews.Submit.{find_pull_or_throw, enqueue_sync}

abbrev pub is_synced : ReviewSyncStatus → Bool
is_synced synced = true
is_synced _ = false

unfoldable pub find_review : Store → Text → Text → Text → Result Review
unfolding findb
find_review s org pull_id review_id = do
  review ← or_throw (findb (λ r. text_eq r.id review_id) s.reviews) review_not_found
  guard (text_eq review.organization_id org && text_eq review.pull_id pull_id) review_not_found
  ok review

unfoldable pub checked_retry : Store → Text → Text → Text → Text → Result Review
unfolding find_pull_or_throw find_review
checked_retry s org repo pull_id review_id = do
  pull ← find_pull_or_throw s org repo pull_id
  review ← find_review s org pull_id review_id
  guard (not (is_synced review.sync_status)) already_synced
  guard (not (is_pending review.sync_status)) sync_in_progress
  guard (is_text pull.head_sha review.head_sha) head_changed
  ok review

abbrev pub mark_pending : Review → Review
mark_pending r = record r { sync_status = pending; sync_error = none }

-- `updateMany({ where: { id, syncStatus: from }, data })`: the write takes hold only where the row
-- still has the status, and answers how many rows it changed.
unfoldable pub update_where :
    Text → (ReviewSyncStatus → Bool) → (Review → Review) → List Review → List Review × ℕ
update_where id from f [] = ([], 0)
update_where id from f (r ∷ rs) =
    let (rest, n) = update_where id from f rs in
    if text_eq r.id id && from r.sync_status then (f r ∷ rest, n + 1) else (r ∷ rest, n)

-- What another request may do to the rows between the read and the write.
abbrev pub Interference : Type 0
Interference = List Review → List Review

abbrev pub retried : Bool → Store → Review → ℕ → Store × Result Review
retried accepts s review n =
    if leb n 0
    then (s, err sync_in_progress)
    else let (s', r') = enqueue_sync accepts s (mark_pending review) in (s', ok r')

abbrev pub retry_write : Bool → Store → Result Review → Store × Result Review
retry_write accepts s (err e) = (s, err e)
retry_write accepts s (ok review) =
    let (rows, n) = update_where review.id is_sync_failed mark_pending s.reviews in
    retried accepts (record s { reviews = rows }) review n

unfoldable pub retry_sync :
    Interference → Bool → Store → Text → Text → Text → Text → Store × Result Review
unfolding update_where
retry_sync meanwhile accepts s org repo pull_id review_id =
    let checked = checked_retry s org repo pull_id review_id in
    retry_write accepts (record s { reviews = meanwhile s.reviews }) checked

-- The provider's answer to the copy: it took it, or it failed, with the error's code and whether it
-- may be tried again (an error that is no ProviderReviewError may, as 'unknown').
pub data Sent : Type 0 where
  sent : Sent
  refused : (code : Text) → (retryable : Bool) → Sent

-- `UNUSABLE_STATES.includes(integration.state)`
abbrev pub is_unusable : IntegrationState → Bool
is_unusable active = false
is_unusable expiring_soon = false
is_unusable _ = true

pub data JobOutcome : Type 0 where
  finished : JobOutcome
  thrown : Text → JobOutcome

abbrev pub mark_synced : Review → Review
mark_synced r = record r { sync_status = synced; sync_error = none }

abbrev pub mark_refused : Text → Review → Review
mark_refused code r = record r { sync_status = sync_failed; sync_error = some code }

-- A write on a pending copy, and its publication where it took hold.
unfoldable pub settle : Store → Text → (Review → Review) → Store
unfolding update_where
settle s id f =
    let (rows, n) = update_where id is_pending f s.reviews in
    record s {
      reviews = rows;
      effects = if leb n 0 then s.effects else s.effects ++ review_changed id ∷ [];
    }

unfoldable pub sync_answer : Bool → Store → Text → Sent → Store × JobOutcome
unfolding settle
sync_answer last_attempt s id sent = (settle s id mark_synced, finished)
sync_answer last_attempt s id (refused code retryable) =
    if retryable && not last_attempt
    then (s, thrown code)
    else (settle s id (mark_refused code), finished)

-- `send`: an unusable credential is refused for good, before the provider is asked.
abbrev pub insufficient : Text
insufficient =
    105 ∷ 110 ∷ 115 ∷ 117 ∷ 102 ∷ 102 ∷ 105 ∷ 99 ∷ 105 ∷ 101 ∷ 110 ∷ 116 ∷ 95 ∷ 112 ∷ 101 ∷ 114
    ∷ 109 ∷ 105 ∷ 115 ∷ 115 ∷ 105 ∷ 111 ∷ 110 ∷ []

abbrev pub send : IntegrationState → Sent → Sent
send state answer = if is_unusable state then refused insufficient false else answer

-- `load`: only a pending copy is sent.
abbrev pub load_pending : Option Review → Option Review
load_pending none = none
load_pending (some r) = if is_pending r.sync_status then some r else none

-- One run of the job. `attempts_made` counts the runs before this one, of `attempts` in all.
unfoldable pub process :
    Store → Text → IntegrationState → (attempts_made attempts : ℕ) → Sent → Store × JobOutcome
process s review_id state attempts_made attempts answer =
    elim (load_pending (findb (λ r. text_eq r.id review_id) s.reviews)) [
      | none ↦ (s, finished)
      | some r ↦ sync_answer (leb attempts (attempts_made + 1)) s r.id (send state answer)
    ]
