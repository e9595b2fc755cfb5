-- ===== src/Lifecycle/Plan.antt =====
-- `planFindings` of src/queue/lifecycle/plan-findings.ts: the rows that one step of a scan stores.
-- `randomUUID` is a supply of identifiers; each row that is made is pushed at once, so the row at
-- position `i` has the `i`-th.
use mathlib.Core.List.{map}
use critiq_be.Prelude.{
  ℕ, Bool, false, Option, none, some, List, [], ◌∷◌, ◌++◌, Text, length, if◌then◌else◌,
}
use critiq_be.Findings.{
  FindingStatus, new, persisted, reopened, resolved, is_resolved, StoredFinding, CandidateFinding,
  FindingRow,
}
use critiq_be.Similarity.{Unicode}
use critiq_be.Lifecycle.Carry.{CarryFile, Carried, carry_forward}
use critiq_be.Lifecycle.Matcher.{
  ResolvedFinding, drop_persisted_duplicates, Assigned, assign_new_or_reopened, Continued,
  match_full_against_base,
}

abbrev pub or_false : Option Bool → Bool
or_false none = false
or_false (some b) = b

-- `fromStored`, with the place `at`.
abbrev pub carried_row : Text → Carried → Text → FindingStatus → FindingRow
carried_row id at scan_id status = record {
  id = id;
  source = at.finding.source;
  rule_id = at.finding.rule_id;
  severity = at.finding.severity;
  title = at.finding.title;
  message = at.finding.message;
  file_path = at.file_path;
  line_start = at.line_start;
  line_end = at.line_end;
  snippet = at.finding.snippet;
  fingerprint = at.finding.fingerprint;
  suppressed_reason = at.finding.suppressed_reason;
  category = at.finding.category;
  confidence = at.finding.confidence;
  reported_severity = at.finding.reported_severity;
  dedupe_of_id = at.finding.dedupe_of_id;
  previous_run_severity = at.finding.previous_run_severity;
  latest_run_severity = at.finding.latest_run_severity;
  not_reproduced = or_false at.finding.not_reproduced;
  status = status;
  first_seen_scan_id = at.finding.first_seen_scan_id;
  origin_finding_id = some at.finding.id;
  resolved_in_scan_id = if is_resolved status then some scan_id else none;
}

-- `fromStored`, where no place is given.
abbrev pub stored_row : Text → StoredFinding → Text → FindingStatus → FindingRow
stored_row id f = carried_row id (record {
  finding = f;
  file_path = f.file_path;
  line_start = f.line_start;
  line_end = f.line_end;
})

pub record Origin : Type 0 where
  pub id : Text
  pub first_seen_scan_id : Text

abbrev pub first_seen : Option Origin → Text → Text
first_seen none scan_id = scan_id
first_seen (some o) scan_id = o.first_seen_scan_id

abbrev pub origin_id : Option Origin → Option Text
origin_id none = none
origin_id (some o) = some o.id

-- `fromCandidate`
abbrev pub candidate_row :
    Text → CandidateFinding → Text → FindingStatus → Option Origin → FindingRow
candidate_row id c scan_id status origin = record {
  id = id;
  source = c.source;
  rule_id = c.rule_id;
  severity = c.severity;
  title = c.title;
  message = c.message;
  file_path = c.file_path;
  line_start = c.line_start;
  line_end = c.line_end;
  snippet = c.snippet;
  fingerprint = c.fingerprint;
  suppressed_reason = c.suppressed_reason;
  category = c.category;
  confidence = c.confidence;
  reported_severity = c.reported_severity;
  dedupe_of_id = c.dedupe_of_id;
  previous_run_severity = none;
  latest_run_severity = none;
  not_reproduced = false;
  status = status;
  first_seen_scan_id = first_seen origin scan_id;
  origin_finding_id = origin_id origin;
  resolved_in_scan_id = none;
}

-- `asResolved`, of a stored finding and of a row.
abbrev pub stored_as_resolved : StoredFinding → ResolvedFinding
stored_as_resolved f = record {
  matchable = record {
    source = f.source;
    file_path = f.file_path;
    line_start = f.line_start;
    category = f.category;
    title = f.title;
    fingerprint = f.fingerprint;
  };
  id = f.id;
  first_seen_scan_id = f.first_seen_scan_id;
}

abbrev pub row_as_resolved : FindingRow → ResolvedFinding
row_as_resolved r = record {
  matchable = record {
    source = r.source;
    file_path = r.file_path;
    line_start = r.line_start;
    category = r.category;
    title = r.title;
    fingerprint = r.fingerprint;
  };
  id = r.id;
  first_seen_scan_id = r.first_seen_scan_id;
}

pub record CarryInput : Type 0 where
  pub base : List StoredFinding
  pub files : List CarryFile

pub record PlanInput : Type 0 where
  pub scan_id : Text
  pub candidates : List CandidateFinding
  pub carry : Option CarryInput
  pub full_match : Option (List StoredFinding)
  pub already_persisted : Option (List Text)
  pub recent_resolved : List StoredFinding

-- The variables of `planFindings`.
pub record PlanState : Type 0 where
  pub rows : List FindingRow
  pub candidates : List CandidateFinding
  pub pool : List ResolvedFinding

pub record PlanResult : Type 0 where
  pub rows : List FindingRow
  pub new_fingerprints : List Text

abbrev pub push_row : PlanState → FindingRow → PlanState
push_row s r = record s { rows = s.rows ++ r ∷ [] }

unfoldable pub step_already : PlanState → Option (List Text) → PlanState
step_already s none = s
step_already s (some known) = record s { candidates = drop_persisted_duplicates s.candidates known }

abbrev pub next_id : (ℕ → Text) → List FindingRow → Text
next_id uuid rows = uuid (length rows)

abbrev pub continued_row : (ℕ → Text) → Text → List FindingRow → Continued → FindingRow
continued_row uuid scan_id rows c =
    candidate_row (next_id uuid rows) c.candidate scan_id persisted
      (some (record { id = c.base.id; first_seen_scan_id = c.base.first_seen_scan_id }))

abbrev pub resolved_state : PlanState → FindingRow → PlanState
resolved_state s row = record s {
  rows = s.rows ++ row ∷ [];
  pool = s.pool ++ row_as_resolved row ∷ [];
}

module _ (uuid : ℕ → Text) (scan_id : Text) where
  -- The loops that push a PERSISTED row for each carried finding, and for each match.
  unfoldable pub push_carried : PlanState → List Carried → PlanState
  push_carried s [] = s
  push_carried s (c ∷ cs) =
      push_carried (push_row s (carried_row (next_id uuid s.rows) c scan_id persisted)) cs

  unfoldable pub push_continued : PlanState → List Continued → PlanState
  push_continued s [] = s
  push_continued s (c ∷ cs) = push_continued (push_row s (continued_row uuid scan_id s.rows c)) cs

  -- A RESOLVED row, which may be re-opened in this very scan.
  unfoldable pub push_resolved : PlanState → List StoredFinding → PlanState
  push_resolved s [] = s
  push_resolved s (f ∷ fs) =
      let row = stored_row (next_id uuid s.rows) f scan_id resolved in
      push_resolved (resolved_state s row) fs

  unfoldable pub step_carry : PlanState → Option CarryInput → PlanState
  step_carry s none = s
  step_carry s (some input) =
      let r = carry_forward input.base input.files in
      let t = push_resolved (push_carried s r.persisted) r.resolved in
      record t {
        candidates =
            drop_persisted_duplicates s.candidates (map (λ c. c.finding.fingerprint) r.persisted);
      }

  unfoldable pub step_match : PlanState → Option (List StoredFinding) → PlanState
  step_match s none = s
  step_match s (some base) =
      let r = match_full_against_base s.candidates base in
      let t = push_resolved (push_continued s r.persisted) r.resolved in
      record t { candidates = r.fresh }

  -- The last loop.
  abbrev pub push_assigned : PlanResult → CandidateFinding → Option ResolvedFinding → PlanResult
  push_assigned r c none = record {
    rows = r.rows ++ candidate_row (next_id uuid r.rows) c scan_id new none ∷ [];
    new_fingerprints = r.new_fingerprints ++ c.fingerprint ∷ [];
  }
  push_assigned r c (some o) = record r {
    rows =
        r.rows
        ++ candidate_row (next_id uuid r.rows) c scan_id reopened
            (some (record { id = o.id; first_seen_scan_id = o.first_seen_scan_id }))
          ∷ [];
  }

  unfoldable pub push_all_assigned : PlanResult → List Assigned → PlanResult
  push_all_assigned r [] = r
  push_all_assigned r (a ∷ as') = push_all_assigned (push_assigned r a.candidate a.reopens) as'

abbrev pub plan_start : PlanInput → PlanState
plan_start input = record {
  rows = [];
  candidates = input.candidates;
  pool = map stored_as_resolved input.recent_resolved;
}

unfoldable pub plan_candidates : (ℕ → Text) → PlanInput → PlanState
plan_candidates uuid input =
    let s = step_carry uuid input.scan_id (plan_start input) input.carry in
    let t = step_match uuid input.scan_id s input.full_match in
    step_already t input.already_persisted

unfoldable pub plan_findings : Unicode → (ℕ → Text) → PlanInput → PlanResult
plan_findings u uuid input =
    let s = plan_candidates uuid input in
    push_all_assigned uuid input.scan_id (record { rows = s.rows; new_fingerprints = [] })
      (assign_new_or_reopened u s.candidates s.pool)
