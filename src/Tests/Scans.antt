-- ===== src/Tests/Scans.antt =====
-- src/queue/lifecycle and src/modules/ai/scan/regenerate-merge.ts on a few findings.
use critiq_be.Prelude.{
  ℕ, ◌+◌, ◌≤◌, ◌≡◌, ◌≢◌, refl, min, Bool, true, false, none, some, List, [], ◌∷◌, Text, codes, pos,
  countb, map, All, text_eq, map_get, or_empty, arith,
}
use critiq_be.Findings.{
  ai, critical, major, new, injection, StoredFinding, CandidateFinding, FindingRow,
}
use critiq_be.Similarity.{Unicode}
use critiq_be.Diff.Script.{keep, delete, Change}
use critiq_be.Diff.Render.{render}
use critiq_be.Diff.RoundTrip.{HasLines}
use critiq_be.Lifecycle.Carry.{removed, modified, CarryFile, carry_one, carry_forward}
use critiq_be.Lifecycle.Carrying.{CarryOutcome, carry_one-render, carry_forward-countb}
use critiq_be.Lifecycle.Matcher.{ResolvedFinding, match_full_against_base, assign_new_or_reopened}
use critiq_be.Lifecycle.FullMatch.{SameFingerprint, match_full_against_base_lem}
use critiq_be.Lifecycle.Reopening.{IsRightly, reopened_by, assign_new_or_reopened_lem}
use critiq_be.Lifecycle.Plan.{PlanInput, candidate_row, stored_as_resolved, plan_findings}
use critiq_be.Lifecycle.Planning.{continuing, carried_base, plan_findings-continuing}
use critiq_be.Lifecycle.Counts.{Group}

-- Only spaces are white space, and titles are letters.
abbrev pub ascii : Unicode
ascii = record { to_lower = λ t. t; letters_only = λ t. t; is_space = λ c. false }

abbrev pub base_finding : StoredFinding
base_finding = record {
  id = codes "f";
  source = ai;
  rule_id = codes "ai.injection";
  severity = critical;
  title = codes "SQL";
  message = codes "text is joined";
  file_path = codes "a.ts";
  line_start = pos 2;
  line_end = pos 2;
  snippet = none;
  fingerprint = codes "x";
  suppressed_reason = none;
  category = some injection;
  confidence = some 900000;
  reported_severity = some critical;
  previous_run_severity = none;
  latest_run_severity = none;
  not_reproduced = none;
  first_seen_scan_id = codes "s0";
  dedupe_of_id = none;
}

abbrev candidate : CandidateFinding
candidate = record {
  source = ai;
  rule_id = codes "ai.injection";
  severity = major;
  title = codes "SQL";
  message = codes "text is joined";
  file_path = codes "a.ts";
  line_start = pos 2;
  line_end = pos 2;
  snippet = none;
  fingerprint = codes "x";
  suppressed_reason = none;
  category = some injection;
  confidence = some 900000;
  reported_severity = some major;
  dedupe_of_id = none;
}

abbrev script : List Change
script = record { gap = []; edits = delete (codes "a") ∷ keep (codes "b") ∷ [] } ∷ []

abbrev file : CarryFile
file = record {
  path = codes "a.ts";
  previous_path = none;
  status = modified;
  patch = some (render script);
}

is_alive : file.status ≢ removed
is_alive e = cc

script-HasLines : HasLines script
script-HasLines = (((omega arith, tt), ((omega arith, tt), tt)), tt)

abbrev files : List (Text × CarryFile)
files = (codes "a.ts", file) ∷ []

file-found : map_get base_finding.file_path files ≡ some file
unfolding map_get text_eq
file-found = refl

carry_one-render_example : CarryOutcome script [] 1 0 (codes "a.ts") (carry_one files base_finding)
carry_one-render_example =
    carry_one-render files base_finding file script [] 1 0 file-found is_alive refl script-HasLines
      refl refl (omega arith)

abbrev is_any {ℓ} : {A : Type ℓ} → A → Bool
is_any a = true

carry_forward-countb_example :
    countb (λ c. is_any c.finding) (carry_forward (base_finding ∷ []) (file ∷ [])).persisted
      + countb is_any (carry_forward (base_finding ∷ []) (file ∷ [])).resolved
    ≡ countb is_any (base_finding ∷ [])
carry_forward-countb_example = carry_forward-countb is_any (base_finding ∷ []) (file ∷ [])

match_full_against_base_lem_example :
    let r = match_full_against_base (candidate ∷ []) (base_finding ∷ []) in
    All SameFingerprint r.persisted
    × ((fp : Text)
        → countb (λ x. text_eq x.candidate.fingerprint fp) r.persisted
          ≡ min
              (countb (λ c. text_eq c.fingerprint fp) (candidate ∷ []))
              (countb (λ b. text_eq b.fingerprint fp) (base_finding ∷ [])))
    × ((q : CandidateFinding → Bool)
        → countb (λ x. q x.candidate) r.persisted + countb q r.fresh ≡ countb q (candidate ∷ []))
    × ((q : StoredFinding → Bool)
        → countb (λ x. q x.base) r.persisted + countb q r.resolved ≡ countb q (base_finding ∷ []))
match_full_against_base_lem_example =
    match_full_against_base_lem (candidate ∷ []) (base_finding ∷ [])

abbrev once_resolved : List ResolvedFinding
once_resolved = stored_as_resolved base_finding ∷ []

assign_new_or_reopened_lem_example :
    (map (λ a. a.candidate) (assign_new_or_reopened ascii (candidate ∷ []) once_resolved)
      ≡ candidate ∷ [])
    × All (IsRightly ascii) (assign_new_or_reopened ascii (candidate ∷ []) once_resolved)
    × (countb is_any (reopened_by (assign_new_or_reopened ascii (candidate ∷ []) once_resolved))
        ≤ countb is_any once_resolved)
assign_new_or_reopened_lem_example =
    assign_new_or_reopened_lem ascii is_any (candidate ∷ []) once_resolved

abbrev uuid : ℕ → Text
uuid n = n ∷ []

abbrev input : PlanInput
input = record {
  scan_id = codes "s1";
  candidates = candidate ∷ [];
  carry = some (record { base = base_finding ∷ []; files = file ∷ [] });
  full_match = none;
  already_persisted = none;
  recent_resolved = [];
}

plan_findings-continuing_example :
    continuing is_any (plan_findings ascii uuid input).rows
    ≡ countb (λ f. is_any (some f.id)) (carried_base input.carry)
      + countb (λ f. is_any (some f.id)) (or_empty input.full_match)
plan_findings-continuing_example = plan_findings-continuing ascii uuid input is_any

abbrev rows : List FindingRow
rows = candidate_row (codes "r") candidate (codes "s1") new none ∷ []

abbrev groups : List Group
groups = record { status = new; severity = major; source = ai; all = 1 } ∷ []
