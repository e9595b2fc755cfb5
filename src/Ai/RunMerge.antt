-- ===== src/Ai/RunMerge.antt =====
-- src/modules/ai/scan/regenerate-merge.ts: a new run of the model merged with a comparable earlier
-- one. `uuid n` is the n-th identifier that `randomUUID` gives out.
use critiq_be.Prelude.{
  ℕ, suc, ◌+◌, Bool, true, false, not, ◌&&◌, Option, none, some, List, [], ◌∷◌, ◌++◌, Text, text_eq,
  leb, length, filterb, findb, map_get, map_set, map_delete, if◌then◌else◌,
}
use critiq_be.Findings.{
  FindingSource, static, ai, FindingSeverity, critical, major, minor, info, same_severity,
  FindingStatus, new, persisted, is_resolved, is_none, StoredFinding, FindingRow, RuleTier,
}
use critiq_be.Similarity.{Unicode}
use critiq_be.Lifecycle.Matcher.{MatchableFinding, or_else, is_same_finding}
use critiq_be.Ai.Tiers.{same_tiers}

-- An earlier run's active AI finding, with the status and origin of the same scan's rows.
pub record PreviousRunFinding : Type 0 where
  pub stored : StoredFinding
  pub status : Option FindingStatus
  pub origin_finding_id : Option Text

pub data PreviousRunKind : Type 0 where
  same_scan base_scan : PreviousRunKind

pub record MergeStats : Type 0 where
  pub matched : ℕ
  pub escalated : ℕ
  pub not_reproduced : ℕ

pub record RunIdentity : Type 0 where
  pub provider : Option Text
  pub model : Option Text
  pub prompt_version : Option Text
  pub locale : Option Text
  pub rule_tiers : List RuleTier

-- `a !== null && a === b`
abbrev pub same_known : Option Text → Option Text → Bool
same_known (some a) (some b) = text_eq a b
same_known _ _ = false

-- `model_family` removes a date at the end of a model's name, by a regular expression.
unfoldable pub is_comparable_run : (Text → Text) → RunIdentity → RunIdentity → Bool
is_comparable_run model_family earlier current =
    same_known earlier.provider current.provider
    && (same_known earlier.prompt_version current.prompt_version
        && (same_known earlier.locale current.locale
            && (same_tiers earlier.rule_tiers current.rule_tiers
                && same_known (family earlier.model) (family current.model))))
  where
    family : Option Text → Option Text
    family none = none
    family (some m) = some (model_family m)

-- `SEVERITY_RANK`
abbrev pub severity_rank : FindingSeverity → ℕ
severity_rank critical = 3
severity_rank major = 2
severity_rank minor = 1
severity_rank info = 0

unfoldable pub higher : FindingSeverity → FindingSeverity → FindingSeverity
higher a b = if leb (severity_rank b) (severity_rank a) then a else b

abbrev pub is_ai : FindingSource → Bool
is_ai ai = true
is_ai static = false

unfoldable pub is_active_ai : FindingRow → Bool
is_active_ai row =
    is_ai row.source && (not (is_resolved row.status) && is_none row.suppressed_reason)

abbrev pub carried_status : PreviousRunKind → Option FindingStatus → FindingStatus
carried_status same_scan none = new
carried_status same_scan (some s) = s
carried_status base_scan s = persisted

abbrev pub carried_origin : PreviousRunKind → PreviousRunFinding → Option Text
carried_origin same_scan earlier = earlier.origin_finding_id
carried_origin base_scan earlier = some earlier.stored.id

-- `carried`
unfoldable pub carried_row : Text → PreviousRunFinding → PreviousRunKind → FindingRow
carried_row id earlier kind = record {
  id = id;
  source = earlier.stored.source;
  rule_id = earlier.stored.rule_id;
  severity = earlier.stored.severity;
  title = earlier.stored.title;
  message = earlier.stored.message;
  file_path = earlier.stored.file_path;
  line_start = earlier.stored.line_start;
  line_end = earlier.stored.line_end;
  snippet = earlier.stored.snippet;
  fingerprint = earlier.stored.fingerprint;
  suppressed_reason = none;
  category = earlier.stored.category;
  confidence = earlier.stored.confidence;
  reported_severity = earlier.stored.reported_severity;
  dedupe_of_id = none;
  previous_run_severity = earlier.stored.previous_run_severity;
  latest_run_severity = earlier.stored.latest_run_severity;
  not_reproduced = true;
  status = carried_status kind earlier.status;
  first_seen_scan_id = earlier.stored.first_seen_scan_id;
  origin_finding_id = carried_origin kind earlier;
  resolved_in_scan_id = none;
}

abbrev pub Unused : Type 0
Unused = List (Text × PreviousRunFinding)

-- `new Map(previous.map((finding) => [finding.id, finding]))`
unfoldable pub index_from : Unused → List PreviousRunFinding → Unused
index_from m [] = m
index_from m (p ∷ ps) = index_from (map_set p.stored.id p m) ps

unfoldable pub values : Unused → List PreviousRunFinding
values [] = []
values ((k, p) ∷ m) = p ∷ values m

-- `id ? unused.get(id) : undefined`; an empty text is falsy.
abbrev pub linked : Unused → Option Text → Option PreviousRunFinding
linked unused none = none
linked unused (some []) = none
linked unused (some (c ∷ id)) = map_get (c ∷ id) unused

abbrev pub is_repeated : Unused → FindingRow → Bool
is_repeated unused row =
    is_resolved row.status && not (is_none (linked unused row.origin_finding_id))

-- `own`
unfoldable pub own_rows : PreviousRunKind → Unused → List FindingRow → List FindingRow
unfolding filterb
own_rows same_scan unused rows = rows
own_rows base_scan unused rows = filterb (λ r. not (is_repeated unused r)) rows

abbrev pub row_matchable : FindingRow → MatchableFinding
row_matchable r = record {
  source = r.source;
  file_path = r.file_path;
  line_start = r.line_start;
  category = r.category;
  title = r.title;
  fingerprint = r.fingerprint;
}

abbrev pub stored_matchable : StoredFinding → MatchableFinding
stored_matchable f = record {
  source = f.source;
  file_path = f.file_path;
  line_start = f.line_start;
  category = f.category;
  title = f.title;
  fingerprint = f.fingerprint;
}

unfoldable pub find_match : Unicode → Unused → FindingRow → Option PreviousRunFinding
find_match u unused row = or_else (linked unused row.origin_finding_id) (
    or_else (findb (λ p. text_eq p.stored.fingerprint row.fingerprint) (values unused)) (
      findb (λ p. is_same_finding u (row_matchable row) (stored_matchable p.stored))
        (values unused)))

abbrev pub is_origin : Option Text → Text → Bool
is_origin none id = false
is_origin (some o) id = text_eq o id

abbrev pub continued_from : PreviousRunFinding → FindingRow → FindingRow
continued_from m row = record row {
  status = persisted;
  origin_finding_id = some m.stored.id;
  first_seen_scan_id = m.stored.first_seen_scan_id;
}

-- `{ ...row, ...lifecycle }`
unfoldable pub with_lifecycle : PreviousRunKind → PreviousRunFinding → FindingRow → FindingRow
with_lifecycle same_scan m row = row
with_lifecycle base_scan m row =
    if is_origin row.origin_finding_id m.stored.id then row else continued_from m row

abbrev pub agreed : PreviousRunFinding → FindingRow → FindingRow
agreed m row = record row {
  previous_run_severity = m.stored.previous_run_severity;
  latest_run_severity = m.stored.latest_run_severity;
}

abbrev pub disagreed :
    FindingSeverity → PreviousRunFinding → FindingSeverity → FindingRow → FindingRow
disagreed severity m latest row = record row {
  severity = severity;
  previous_run_severity = some m.stored.severity;
  latest_run_severity = some latest;
}

-- The row of a match.
unfoldable pub matched_row : PreviousRunKind → PreviousRunFinding → FindingRow → FindingRow
matched_row kind m row =
    if same_severity m.stored.severity row.severity
    then agreed m (with_lifecycle kind m row)
    else disagreed (higher m.stored.severity row.severity) m row.severity
        (with_lifecycle kind m row)

abbrev pub escalates : PreviousRunFinding → FindingRow → Bool
escalates m row =
    not (same_severity m.stored.severity row.severity)
    && not (same_severity (higher m.stored.severity row.severity) row.severity)

-- The loop over the run's own rows: what it pushes, counts, and leaves unused.
pub record Merging : Type 0 where
  pub rows : List FindingRow
  pub matched : ℕ
  pub escalated : ℕ
  pub unused : Unused

abbrev pub push_own : FindingRow → Merging → Merging
push_own row r = record r { rows = row ∷ r.rows }

abbrev pub push_match : PreviousRunKind → PreviousRunFinding → FindingRow → Merging → Merging
push_match kind m row r = record r {
  rows = matched_row kind m row ∷ r.rows;
  matched = suc r.matched;
  escalated = (if escalates m row then 1 else 0) + r.escalated;
}

abbrev pub matching : Bool → Option PreviousRunFinding → Option PreviousRunFinding
matching true o = o
matching false o = none

unfoldable pub merge_rows : Unicode → PreviousRunKind → Unused → List FindingRow → Merging
merge_rows u kind unused [] = record { rows = []; matched = 0; escalated = 0; unused = unused }
merge_rows u kind unused (row ∷ rows) =
    elim (matching (is_active_ai row) (find_match u unused row)) [
      | none ↦ push_own row (merge_rows u kind unused rows)
      | some m ↦ push_match kind m row (merge_rows u kind (map_delete m.stored.id unused) rows)
    ]

-- The last loop: the `n`-th carried row takes the `n`-th identifier.
unfoldable pub carry_unused : (ℕ → Text) → ℕ → PreviousRunKind → Unused → List FindingRow
unfolding carried_row
carry_unused uuid n kind [] = []
carry_unused uuid n kind ((k, p) ∷ m) =
    carried_row (uuid n) p kind ∷ carry_unused uuid (suc n) kind m

pub record Merged : Type 0 where
  pub rows : List FindingRow
  pub stats : MergeStats

unfoldable pub merge_with_previous_run :
    Unicode → (ℕ → Text) → List FindingRow → List PreviousRunFinding → PreviousRunKind → Merged
merge_with_previous_run u uuid rows previous kind =
    let unused = index_from [] previous in
    let r = merge_rows u kind unused (own_rows kind unused rows) in
    let kept = carry_unused uuid 0 kind r.unused in
    record {
      rows = r.rows ++ kept;
      stats = record {
        matched = r.matched;
        escalated = r.escalated;
        not_reproduced = length (values r.unused);
      };
    }
