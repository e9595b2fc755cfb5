-- ===== src/Lifecycle/Counts.antt =====
-- src/queue/lifecycle/scan-counts.ts: a scan's counts, rebuilt from its finding rows.
-- The database is a list of rows. `groupBy` is Prisma's: the groups are an argument of the loop.
use critiq_be.Prelude.{
  ℕ, ◌+◌, ◌-◌, Bool, false, ◌&&◌, Option, none, some, List, [], ◌∷◌, Text, text_eq, eq_Text, countb,
  anyb, if◌then◌else◌,
}
use critiq_be.Findings.{
  FindingSource, static, ai, FindingSeverity, critical, major, minor, info, FindingStatus, new,
  persisted, reopened, resolved, is_none, is_resolved, is_reopened, FindingRow,
}

pub record ScanCounts : Type 0 where
  pub findings_count : ℕ
  pub critical_count : ℕ
  pub major_count : ℕ
  pub minor_count : ℕ
  pub new_count : ℕ
  pub persisted_count : ℕ
  pub reopened_count : ℕ
  pub resolved_count : ℕ

abbrev pub zero_counts : ScanCounts
zero_counts = record {
  findings_count = 0;
  critical_count = 0;
  major_count = 0;
  minor_count = 0;
  new_count = 0;
  persisted_count = 0;
  reopened_count = 0;
  resolved_count = 0;
}

-- A group of `groupBy({ by: ['status', 'severity', 'source'] })`.
pub record Group : Type 0 where
  pub status : FindingStatus
  pub severity : FindingSeverity
  pub source : FindingSource
  pub all : ℕ

abbrev pub add_status : FindingStatus → ℕ → ScanCounts → ScanCounts
add_status new n c = record c { new_count = c.new_count + n }
add_status persisted n c = record c { persisted_count = c.persisted_count + n }
add_status reopened n c = record c { reopened_count = c.reopened_count + n }
add_status resolved n c = c

abbrev pub add_source : FindingSource → ℕ → ScanCounts → ScanCounts
add_source static n c = record c { findings_count = c.findings_count + n }
add_source ai n c = c

abbrev pub add_severity : FindingSeverity → ℕ → ScanCounts → ScanCounts
add_severity critical n c = record c { critical_count = c.critical_count + n }
add_severity major n c = record c { major_count = c.major_count + n }
add_severity minor n c = record c { minor_count = c.minor_count + n }
add_severity info n c = c

-- One round: RESOLVED counts as resolved alone. NEW, PERSISTED and REOPENED are the active statuses
-- and all others that there are, so the second `continue` is never taken.
unfoldable pub add_group : ScanCounts → Group → ScanCounts
add_group c g =
    if is_resolved g.status
    then record c { resolved_count = c.resolved_count + g.all }
    else add_severity g.severity g.all (add_source g.source g.all (add_status g.status g.all c))

unfoldable pub add_groups : ScanCounts → List Group → ScanCounts
unfolding add_group
add_groups c [] = c
add_groups c (g ∷ gs) = add_groups (add_group c g) gs

-- The row with an identifier is a RESOLVED row of the same scan.
abbrev pub resolves : Option Text → FindingRow → Bool
resolves none row = false
resolves (some id) row = text_eq row.id id && is_resolved row.status

-- `finding.count` of the REOPENED rows whose origin is a RESOLVED row of this scan.
unfoldable pub reopened_within_scan : List FindingRow → ℕ
unfolding countb anyb
reopened_within_scan rows =
    countb
      (λ r.
        is_none r.suppressed_reason
        && (is_reopened r.status && anyb (resolves r.origin_finding_id) rows))
      rows

-- `recomputeScanCounts` over the rows of a scan: what it returns and writes to the scan.
unfoldable pub recompute_scan_counts : List FindingRow → List Group → ScanCounts
recompute_scan_counts rows groups =
    let c = add_groups zero_counts groups in
    record c { resolved_count = c.resolved_count - reopened_within_scan rows }
