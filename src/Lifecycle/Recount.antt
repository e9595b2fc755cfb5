-- ===== src/Lifecycle/Recount.antt =====
-- `recomputeScanCounts` of src/queue/lifecycle/scan-counts.ts counts the rows of the scan.
use critiq_be.Prelude.{
  ℕ, ◌+◌, ◌≡◌, Bool, true, false, ◌&&◌, not, List, [], ◌∷◌, countb, if◌then◌else◌,
}
use critiq_be.Findings.{
  FindingSource, static, ai, FindingSeverity, critical, major, minor, FindingStatus, is_none,
  is_resolved, FindingRow,
}
use critiq_be.Lifecycle.Counts.{Group}

abbrev pub Test : Type 0
Test = FindingStatus → FindingSeverity → FindingSource → Bool

abbrev pub is_critical : FindingSeverity → Bool
is_critical critical = true
is_critical _ = false

abbrev pub is_major : FindingSeverity → Bool
is_major major = true
is_major _ = false

abbrev pub is_minor : FindingSeverity → Bool
is_minor minor = true
is_minor _ = false

abbrev pub is_static : FindingSource → Bool
is_static static = true
is_static ai = false

-- The rows that pass a test and are not suppressed, and what the groups say of them.
unfoldable pub counted : Test → List FindingRow → ℕ
unfolding countb
counted t rows = countb (λ r. is_none r.suppressed_reason && t r.status r.severity r.source) rows

unfoldable pub total : Test → List Group → ℕ
total t [] = 0
total t (g ∷ gs) = (if t g.status g.severity g.source then g.all else 0) + total t gs

-- What Prisma documents of `groupBy` with `_count`: the groups add up to the rows, those of any
-- statuses, severities and sources.
abbrev pub IsGrouping : List FindingRow → List Group → Type 0
IsGrouping rows groups = (t : Test) → total t groups ≡ counted t rows

abbrev pub is_active : FindingStatus → FindingSeverity → FindingSource → Bool
is_active s v o = not (is_resolved s)
