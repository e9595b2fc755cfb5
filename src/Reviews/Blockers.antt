-- ===== src/Reviews/Blockers.antt =====
-- src/modules/reviews/latest-per-reviewer.ts and src/modules/reviews/merge-blockers.ts: why a pull
-- request cannot be merged yet.
use critiq_be.Prelude.{
  ℕ, suc, Bool, true, false, not, ◌&&◌, Option, none, some, List, [], ◌∷◌, ◌++◌, map, Text, text_eq,
  eq_Text, ltb, contains, anyb, filterb, codes, if◌then◌else◌,
}
use critiq_be.Diff.Render.{decimal}
use critiq_be.Reviews.Types.{
  PullRequestState, ReviewDecision, Scan, Review, is_open, is_done, is_approve, is_text,
}

pub record HeadReview : Type 0 where
  pub reviewer_id : Option Text
  pub decision : ReviewDecision

-- `deleted-${index}` for a reviewer whose account is gone.
abbrev pub review_key : ℕ → Option Text → Text
review_key index none = codes "deleted-" ++ decimal index
review_key index (some id) = id

-- The filter, from index `i`, with the keys seen so far.
unfoldable pub latest_from : ℕ → List Text → List HeadReview → List HeadReview
unfolding contains
latest_from i seen [] = []
latest_from i seen (r ∷ rs) =
    let key = review_key i r.reviewer_id in
    let later = latest_from (suc i) seen rs in
    let next = latest_from (suc i) (key ∷ seen) rs in if contains seen key then later else r ∷ next

unfoldable pub latest_per_reviewer : List HeadReview → List HeadReview
unfolding latest_from
latest_per_reviewer newest_first = latest_from 0 [] newest_first

pub data MergeBlocker : Type 0 where
  pull_not_open approval_required changes_requested scan_required critical_findings : MergeBlocker

pub record MergeBlockersInput : Type 0 where
  pub state : PullRequestState
  pub head_sha : Option Text
  pub latest_scan : Option Scan
  pub reviews_on_head : List HeadReview

abbrev pub when : Bool → MergeBlocker → List MergeBlocker
when true b = b ∷ []
when false b = []

-- The scan blocker: none for a done scan of the head without critical findings.
abbrev pub scan_blockers : Option Text → Option Scan → List MergeBlocker
scan_blockers head none = scan_required ∷ []
scan_blockers head (some scan) =
    if is_done scan.status && is_text head scan.head_sha
    then when (ltb 0 scan.critical_count) critical_findings
    else scan_required ∷ []

unfoldable pub approved_by_any : List HeadReview → Bool
unfolding anyb
approved_by_any reviews = anyb (λ r. is_approve r.decision) reviews

unfoldable pub refused_by_any : List HeadReview → Bool
unfolding anyb
refused_by_any reviews = anyb (λ r. not (is_approve r.decision)) reviews

unfoldable pub merge_blockers : MergeBlockersInput → List MergeBlocker
merge_blockers input =
    let latest = latest_per_reviewer input.reviews_on_head in
    if is_open input.state
    then when (not (approved_by_any latest)) approval_required
      ++ (when (refused_by_any latest) changes_requested
          ++ scan_blockers input.head_sha input.latest_scan)
    else pull_not_open ∷ []

-- `loadMergeBlockers`: the reviews of the pull request's head, newest first.
abbrev pub head_review : Review → HeadReview
head_review r = record { reviewer_id = r.reviewer_id; decision = r.decision }

unfoldable pub reviews_on_head : List Review → Text → Option Text → List HeadReview
unfolding filterb
reviews_on_head reviews pull_id none = []
reviews_on_head reviews pull_id (some head) =
    map head_review (filterb (λ r. text_eq r.pull_id pull_id && text_eq r.head_sha head) reviews)
