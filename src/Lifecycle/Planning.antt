-- ===== src/Lifecycle/Planning.antt =====
-- What `planFindings` of src/queue/lifecycle/plan-findings.ts promises of the rows it plans.
use native.Mathlib.Nat.{add-zero}
use critiq_be.Prelude.{
  ℕ, ◌+◌, ◌≡◌, refl, ap, ◌∙◌, Bool, ◌&&◌, ◌||◌, Option, none, some, List, [], ◌∷◌, ◌++◌, Text,
  arith, countb, countb-append, if◌then◌else◌, or_empty,
}
use critiq_be.Findings.{
  new, persisted, reopened, resolved, is_resolved, is_persisted, StoredFinding, CandidateFinding,
  FindingRow,
}
use critiq_be.Similarity.{Unicode}
use critiq_be.Lifecycle.Carry.{Carried, carry_forward}
use critiq_be.Lifecycle.Carrying.{carry_forward-countb}
use critiq_be.Lifecycle.Matcher.{
  ResolvedFinding, Assigned, Continued, match_full_against_base, assign_new_or_reopened,
}
use critiq_be.Lifecycle.FullMatch.{match_full_against_base_lem}
use critiq_be.Lifecycle.Plan.{
  CarryInput, PlanInput, PlanState, next_id, push_row, resolved_state, carried_row, continued_row,
  stored_row, candidate_row, PlanResult, push_carried, push_continued, push_resolved, step_carry,
  step_match, step_already, push_assigned, push_all_assigned, plan_start, plan_candidates,
  plan_findings,
}

-- A row PERSISTED or RESOLVED whose origin, if it has one, passes.
abbrev pub continues : (Option Text → Bool) → FindingRow → Bool
continues q r = (is_persisted r.status || is_resolved r.status) && q r.origin_finding_id

unfoldable pub continuing : (Option Text → Bool) → List FindingRow → ℕ
unfolding countb
continuing q rows = countb (continues q) rows

continuing-nil : (q : Option Text → Bool) → continuing q [] ≡ 0
unfolding continuing
continuing-nil q = refl

-- The base findings of an incremental scan.
abbrev pub carried_base : Option CarryInput → List StoredFinding
carried_base none = []
carried_base (some input) = input.base

continuing-append :
    (q : Option Text → Bool) (rows : List FindingRow) (r : FindingRow)
    → continuing q (rows ++ r ∷ []) ≡ continuing q rows + (if continues q r then 1 else 0)
unfolding continuing
continuing-append q rows r = omega (arith, countb-append (continues q) rows (r ∷ []))

module _ (uuid : ℕ → Text) (scan_id : Text) (q : Option Text → Bool) where
  push_carried-continuing :
      (s : PlanState) (cs : List Carried)
      → continuing q (push_carried uuid scan_id s cs).rows
        ≡ continuing q s.rows + countb (λ c. q (some c.finding.id)) cs
  unfolding push_carried countb
  push_carried-continuing s [] = omega arith
  push_carried-continuing s (c ∷ cs) =
      let row = carried_row (next_id uuid s.rows) c scan_id persisted in
      omega (arith, push_carried-continuing (push_row s row) cs, continuing-append q s.rows row)

  push_continued-continuing :
      (s : PlanState) (cs : List Continued)
      → continuing q (push_continued uuid scan_id s cs).rows
        ≡ continuing q s.rows + countb (λ c. q (some c.base.id)) cs
  unfolding push_continued countb
  push_continued-continuing s [] = omega arith
  push_continued-continuing s (c ∷ cs) =
      let row = continued_row uuid scan_id s.rows c in
      omega (arith, push_continued-continuing (push_row s row) cs, continuing-append q s.rows row)

  push_resolved-continuing :
      (s : PlanState) (fs : List StoredFinding)
      → continuing q (push_resolved uuid scan_id s fs).rows
        ≡ continuing q s.rows + countb (λ f. q (some f.id)) fs
  unfolding push_resolved countb
  push_resolved-continuing s [] = omega arith
  push_resolved-continuing s (f ∷ fs) =
      let row = stored_row (next_id uuid s.rows) f scan_id resolved in
      omega
        (arith, push_resolved-continuing (resolved_state s row) fs, continuing-append q s.rows row)

  -- NEW and REOPENED rows continue no base finding.
  push_assigned-continuing :
      (r : PlanResult) (c : CandidateFinding) (o : Option ResolvedFinding)
      → continuing q (push_assigned uuid scan_id r c o).rows ≡ continuing q r.rows
  push_assigned-continuing r c none =
      continuing-append q r.rows (candidate_row (next_id uuid r.rows) c scan_id new none)
      ∙ add-zero _
  push_assigned-continuing r c (some o) =
      continuing-append q r.rows (
        candidate_row (next_id uuid r.rows) c scan_id reopened
          (some (record { id = o.id; first_seen_scan_id = o.first_seen_scan_id })))
      ∙ add-zero _

  push_all_assigned-continuing :
      (r : PlanResult) (as' : List Assigned)
      → continuing q (push_all_assigned uuid scan_id r as').rows ≡ continuing q r.rows
  unfolding push_all_assigned
  push_all_assigned-continuing r [] = refl
  push_all_assigned-continuing r (a ∷ as') =
      push_all_assigned-continuing (push_assigned uuid scan_id r a.candidate a.reopens) as'
      ∙ push_assigned-continuing r a.candidate a.reopens

  step_carry-continuing :
      (s : PlanState) (input : Option CarryInput)
      → continuing q (step_carry uuid scan_id s input).rows
        ≡ continuing q s.rows + countb (λ f. q (some f.id)) (carried_base input)
  unfolding step_carry
  step_carry-continuing s none = unfold countb in omega arith
  step_carry-continuing s (some input) =
      let r = carry_forward input.base input.files in
      omega (
        arith,
        push_carried-continuing s r.persisted,
        push_resolved-continuing (push_carried uuid scan_id s r.persisted) r.resolved,
        carry_forward-countb (λ f. q (some f.id)) input.base input.files,
      )

  step_match-continuing :
      (s : PlanState) (base : Option (List StoredFinding))
      → continuing q (step_match uuid scan_id s base).rows
        ≡ continuing q s.rows + countb (λ f. q (some f.id)) (or_empty base)
  unfolding step_match
  step_match-continuing s none = unfold countb in omega arith
  step_match-continuing s (some base) =
      let r = match_full_against_base s.candidates base in
      omega (
        arith,
        push_continued-continuing s r.persisted,
        push_resolved-continuing (push_continued uuid scan_id s r.persisted) r.resolved,
        (match_full_against_base_lem s.candidates base).3 (λ f. q (some f.id)),
      )

step_already-rows :
    (s : PlanState) (known : Option (List Text)) → (step_already s known).rows ≡ s.rows
unfolding step_already
step_already-rows s none = refl
step_already-rows s (some known) = refl

-- `planFindings` continues every finding of the base scan in exactly one row, PERSISTED or RESOLVED,
-- and no other row is one of these two: for every test `q` of the origin of a row, which passes or
-- fails a row without an origin too, there are as many PERSISTED or RESOLVED rows that pass it as
-- there are base findings that pass it as an origin.
pub plan_findings-continuing :
    (u : Unicode) (uuid : ℕ → Text) (input : PlanInput) (q : Option Text → Bool)
    → continuing q (plan_findings u uuid input).rows
      ≡ countb (λ f. q (some f.id)) (carried_base input.carry)
        + countb (λ f. q (some f.id)) (or_empty input.full_match)
unfolding plan_findings plan_candidates
plan_findings-continuing u uuid input q =
    let scan = input.scan_id in
    let s = step_carry uuid scan (plan_start input) input.carry in
    let t = step_match uuid scan s input.full_match in
    omega (
      arith,
      push_all_assigned-continuing uuid scan q
          (record { rows = (step_already t input.already_persisted).rows; new_fingerprints = [] })
          (assign_new_or_reopened u (step_already t input.already_persisted).candidates
            (step_already t input.already_persisted).pool),
      ap (continuing q) (step_already-rows t input.already_persisted),
      step_match-continuing uuid scan q s input.full_match,
      step_carry-continuing uuid scan q (plan_start input) input.carry,
      continuing-nil q,
    )
