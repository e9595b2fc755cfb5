-- ===== src/Ai/Keeping.antt =====
-- What `mergeWithPreviousRun` of src/modules/ai/scan/regenerate-merge.ts keeps of an earlier run.
use mathlib.Core.Bool.{decide}
use critiq_be.Prelude.{
  ℕ, ◌≤◌, ◌≡◌, refl, sym, ap, ◌∙◌, Bool, true, false, ◌&&◌, Option, none, some, [], ◌∷◌, Text,
  text_eq, leb, findb, map_get, arith, if◌then◌else◌, Bool-cases, inl, inr,
}
use critiq_be.Findings.{FindingSeverity, FindingSeverity-discrete, same_severity, FindingRow}
use critiq_be.Similarity.{Unicode}
use critiq_be.Lifecycle.Matcher.{or_else, is_same_finding}
use critiq_be.Ai.RunMerge.{
  PreviousRunFinding, PreviousRunKind, same_scan, base_scan, severity_rank, higher, is_active_ai,
  Unused, values, linked, row_matchable, stored_matchable, find_match, is_origin, with_lifecycle,
  agreed, disagreed, matched_row,
}
use critiq_be.Ai.Unused.{IsKeyed, map_get-key, findb-map_get}

-- At least as severe as `k` says, of an earlier finding; and, of a row, active as well.
abbrev pub is_severe : ℕ → PreviousRunFinding → Bool
is_severe k p = leb k (severity_rank p.stored.severity)

abbrev pub counts_as : ℕ → FindingRow → Bool
counts_as k row = is_active_ai row && leb k (severity_rank row.severity)

same_severity-eq : (a b : FindingSeverity) → same_severity a b ≡ true → a ≡ b
unfolding same_severity decide
same_severity-eq a b e = of_decide (FindingSeverity-discrete a b) e
  where
    of_decide : (d : Dec (a ≡ b)) → decide d ≡ true → a ≡ b
    of_decide (yes p) h = p
    of_decide (no n) h = cc

module _ (m : PreviousRunFinding) (row : FindingRow) where
  with_lifecycle-severity :
      (kind : PreviousRunKind) → (with_lifecycle kind m row).severity ≡ row.severity
  unfolding with_lifecycle
  with_lifecycle-severity same_scan = refl
  with_lifecycle-severity base_scan =
      elim (Bool-cases (is_origin row.origin_finding_id m.stored.id)) [
        | inl e ↦ rw e refl
        | inr e ↦ rw e refl
      ]

  with_lifecycle-active :
      (kind : PreviousRunKind)
      → is_active_ai row ≡ true
      → is_active_ai (with_lifecycle kind m row) ≡ true
  unfolding with_lifecycle is_active_ai
  with_lifecycle-active same_scan a = a
  with_lifecycle-active base_scan a =
      elim (Bool-cases (is_origin row.origin_finding_id m.stored.id)) [
        | inl e ↦ rw e a
        | inr e ↦ rw e (ground (arith, a))
      ]

  module _ (kind : PreviousRunKind) where
    matched_row_same :
        same_severity m.stored.severity row.severity ≡ true
        → matched_row kind m row ≡ agreed m (with_lifecycle kind m row)
    unfolding matched_row
    matched_row_same e = rw e refl

    matched_row_other :
        same_severity m.stored.severity row.severity ≡ false
        → matched_row kind m row
          ≡ disagreed
              (higher m.stored.severity row.severity)
              m
              row.severity
              (with_lifecycle kind m row)
    unfolding matched_row
    matched_row_other e = rw e refl

higher-rank :
    (a b : FindingSeverity)
    → (severity_rank a ≤ severity_rank (higher a b))
      × (severity_rank b ≤ severity_rank (higher a b))
unfolding higher
higher-rank a b = ground arith

-- The severity of a match's row is the higher of the two.
matched_row-severity :
    (kind : PreviousRunKind) (m : PreviousRunFinding) (row : FindingRow)
    → (severity_rank m.stored.severity ≤ severity_rank (matched_row kind m row).severity)
      × (severity_rank row.severity ≤ severity_rank (matched_row kind m row).severity)
matched_row-severity kind m row = elim (Bool-cases (same_severity m.stored.severity row.severity)) [
  | inl e ↦
      rw (matched_row_same m row kind e, with_lifecycle-severity m row kind)
        (omega (arith, ap severity_rank (same_severity-eq m.stored.severity row.severity e)))
  | inr e ↦ rw (matched_row_other m row kind e) (higher-rank m.stored.severity row.severity)
]

matched_row-active :
    (kind : PreviousRunKind) (m : PreviousRunFinding) (row : FindingRow)
    → is_active_ai row ≡ true
    → is_active_ai (matched_row kind m row) ≡ true
unfolding is_active_ai
matched_row-active kind m row a = elim (Bool-cases (same_severity m.stored.severity row.severity)) [
  | inl e ↦ rw (matched_row_same m row kind e) (agreed-active (with_lifecycle-active m row kind a))
  | inr e ↦
      rw (matched_row_other m row kind e) (disagreed-active (with_lifecycle-active m row kind a))
]
  where
    agreed-active :
        is_active_ai (with_lifecycle kind m row) ≡ true
        → is_active_ai (agreed m (with_lifecycle kind m row)) ≡ true
    agreed-active h = h

    disagreed-active :
        is_active_ai (with_lifecycle kind m row) ≡ true
        → is_active_ai (
            disagreed
              (higher m.stored.severity row.severity)
              m
              row.severity
              (with_lifecycle kind m row))
          ≡ true
    disagreed-active h = h

pub matched_row-counts_as :
    (k : ℕ) (kind : PreviousRunKind) (m : PreviousRunFinding) (row : FindingRow)
    → is_active_ai row ≡ true
    → ((if is_severe k m then 1 else 0) ≤ (if counts_as k (matched_row kind m row) then 1 else 0))
      × ((if counts_as k row then 1 else 0)
          ≤ (if counts_as k (matched_row kind m row) then 1 else 0))
matched_row-counts_as k kind m row e =
    let sev = matched_row-severity kind m row in
    let act = matched_row-active kind m row e in rw (act, e) (ground (arith, sev))

linked-map_get :
    (unused : Unused) (o : Option Text)
    → IsKeyed unused
    → (p : PreviousRunFinding) → linked unused o ≡ some p
    → map_get p.stored.id unused ≡ some p
linked-map_get unused none h p e = cc
linked-map_get unused (some []) h p e = cc
linked-map_get unused (some (c ∷ id)) h p e =
    ap (λ i. map_get i unused) (sym (map_get-key (c ∷ id) unused p h e)) ∙ e

pub find_match-map_get :
    (u : Unicode) (unused : Unused) (row : FindingRow) (m : PreviousRunFinding)
    → IsKeyed unused
    → find_match u unused row ≡ some m
    → map_get m.stored.id unused ≡ some m
unfolding find_match
find_match-map_get u unused row m h e =
    let fp = λ (p : PreviousRunFinding). text_eq p.stored.fingerprint row.fingerprint in
    let same = λ (p : PreviousRunFinding).
      is_same_finding u (row_matchable row) (stored_matchable p.stored) in
    by_link (linked unused row.origin_finding_id) (findb fp (values unused))
      (findb same (values unused)) (linked-map_get unused row.origin_finding_id h)
      (λ p. findb-map_get fp unused p h) (λ p. findb-map_get same unused p h) e
  where
    by_link :
        (a b c : Option PreviousRunFinding)
        → ((p : PreviousRunFinding) → a ≡ some p → map_get p.stored.id unused ≡ some p)
        → ((p : PreviousRunFinding) → b ≡ some p → map_get p.stored.id unused ≡ some p)
        → ((p : PreviousRunFinding) → c ≡ some p → map_get p.stored.id unused ≡ some p)
        → or_else a (or_else b c) ≡ some m
        → map_get m.stored.id unused ≡ some m
    by_link (some a) b c x y z q = x m q
    by_link none (some b) c x y z q = y m q
    by_link none none c x y z q = z m q
