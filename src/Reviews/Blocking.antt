-- ===== src/Reviews/Blocking.antt =====
-- When src/modules/reviews/merge-blockers.ts lets a pull request be merged.
use critiq_be.Prelude.{
  ◌≡◌, ◌↔◌, Bool, true, false, not, Option, none, some, List, [], ◌∷◌, ◌++◌, Text, arith,
  if◌then◌else◌,
}
use critiq_be.Reviews.Types.{is_open, is_done, is_text, Scan}
use critiq_be.Reviews.Blockers.{
  latest_per_reviewer, approved_by_any, refused_by_any, MergeBlocker, MergeBlockersInput, when,
  scan_blockers, merge_blockers,
}

-- A done scan of the head that found nothing critical.
abbrev pub IsClean : Option Text → Option Scan → Type 0
IsClean head none = ⊥
IsClean head (some scan) =
    (is_done scan.status ≡ true) × (is_text head scan.head_sha ≡ true) × (scan.critical_count ≡ 0)

-- What has to hold of a pull request to be merged.
abbrev pub IsMergeable : MergeBlockersInput → Type 0
IsMergeable input =
    let latest = latest_per_reviewer input.reviews_on_head in
    (is_open input.state ≡ true)
    × (approved_by_any latest ≡ true)
    × (refused_by_any latest ≡ false)
    × IsClean input.head_sha input.latest_scan

scan_blockers-nil :
    (head : Option Text) (scan : Option Scan) → (scan_blockers head scan ≡ []) ↔ IsClean head scan
scan_blockers-nil head none = ((λ e. cc), λ h. elim h [ ])
scan_blockers-nil head (some scan) = ground arith

blockers-nil :
    (opened approved refused : Bool) (scan : List MergeBlocker)
    → ((if opened
          then when (not approved) MergeBlocker.approval_required
            ++ (when refused MergeBlocker.changes_requested ++ scan)
          else MergeBlocker.pull_not_open ∷ [])
        ≡ [])
      ↔ ((opened ≡ true) × (approved ≡ true) × (refused ≡ false) × (scan ≡ []))
blockers-nil opened approved refused scan = ground arith

-- Nothing blocks a merge exactly when the pull request is open, one of the decisions that stand on
-- its head is an approval, none asks for changes, and its latest scan is a done scan of the head
-- with no critical finding.
pub merge_blockers-nil :
    (input : MergeBlockersInput) → (merge_blockers input ≡ []) ↔ IsMergeable input
unfolding merge_blockers
merge_blockers-nil input =
    let latest = latest_per_reviewer input.reviews_on_head in
    let outer =
      blockers-nil (is_open input.state) (approved_by_any latest) (refused_by_any latest)
        (scan_blockers input.head_sha input.latest_scan) in
    let inner = scan_blockers-nil input.head_sha input.latest_scan in
    (
      (λ e. let (o, a, r, s) = outer.0 e in (o, a, r, inner.0 s)),
      λ (o, a, r, s). outer.1 (o, a, r, inner.1 s),
    )
