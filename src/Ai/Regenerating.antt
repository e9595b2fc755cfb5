-- ===== src/Ai/Regenerating.antt =====
-- `mergeWithPreviousRun` of src/modules/ai/scan/regenerate-merge.ts loses no severity.
use critiq_be.Prelude.{
  ℕ, suc, ◌+◌, ◌≤◌, ◌≡◌, refl, ap, Bool, true, false, not, ◌&&◌, Option, none, some, List, [], ◌∷◌,
  Text, filterb, countb, countb-append, length, length-append, All, map_delete, arith,
  if◌then◌else◌, Option-cases, Bool-cases, inl, inr,
}
use critiq_be.Findings.{is_resolved, FindingRow}
use critiq_be.Similarity.{Unicode}
use critiq_be.Ai.RunMerge.{
  PreviousRunFinding, PreviousRunKind, same_scan, base_scan, is_ai, is_active_ai, carried_status,
  carried_row, Unused, index_from, values, own_rows, is_repeated, find_match, matched_row, Merging,
  push_own, push_match, matching, merge_rows, carry_unused, merge_with_previous_run,
}
use critiq_be.Ai.Unused.{
  IsKeyed, map_delete-IsKeyed, index_from-IsKeyed, countb-map_delete, length-map_delete,
  map_delete-All, index_from-All,
}
use critiq_be.Ai.Keeping.{is_severe, counts_as, matched_row-counts_as, find_match-map_get}

matching-some :
    (b : Bool) (o : Option PreviousRunFinding) (m : PreviousRunFinding)
    → matching b o ≡ some m
    → (b ≡ true) × (o ≡ some m)
matching-some true o m e = (refl, e)
matching-some false o m e = cc

module _ (u : Unicode) (kind : PreviousRunKind) (unused : Unused) (row : FindingRow)
    (rows : List FindingRow) where
  merge_rows-none :
      matching (is_active_ai row) (find_match u unused row) ≡ none
      → merge_rows u kind unused (row ∷ rows) ≡ push_own row (merge_rows u kind unused rows)
  unfolding merge_rows
  merge_rows-none e = rw (merge_rows, e) refl

  merge_rows-some :
      (m : PreviousRunFinding)
      → matching (is_active_ai row) (find_match u unused row) ≡ some m
      → merge_rows u kind unused (row ∷ rows)
        ≡ push_match kind m row (merge_rows u kind (map_delete m.stored.id unused) rows)
  unfolding merge_rows
  merge_rows-some m e = rw (merge_rows, e) refl

countb-head :
    (q : FindingRow → Bool) (r : FindingRow) (rs : List FindingRow)
    → countb q (r ∷ rs) ≡ (if q r then 1 else 0) + countb q rs
unfolding countb
countb-head q r rs = refl

-- What the loop over the run's rows keeps, for findings at least as severe as `k`.
abbrev pub Keeps : ℕ → Unused → List FindingRow → Merging → Type 0
Keeps k unused rows r =
    (countb (is_severe k) (values unused)
      ≤ countb (counts_as k) r.rows + countb (is_severe k) (values r.unused))
    × (countb (counts_as k) rows ≤ countb (counts_as k) r.rows)
    × (length (values unused) ≡ r.matched + length (values r.unused))
    × (length r.rows ≡ length rows)

merge_rows-Keeps :
    (k : ℕ) (u : Unicode) (kind : PreviousRunKind) (unused : Unused) (rows : List FindingRow)
    → IsKeyed unused
    → Keeps k unused rows (merge_rows u kind unused rows)
merge_rows-Keeps k u kind unused [] h = unfold merge_rows in omega arith
merge_rows-Keeps k u kind unused (row ∷ rows) h =
    elim (Option-cases (matching (is_active_ai row) (find_match u unused row))) [
      | inl e ↦
          let rest = merge_rows u kind unused rows in
          rw (merge_rows-none u kind unused row rows e) (
            omega (
              arith,
              merge_rows-Keeps k u kind unused rows h,
              countb-head (counts_as k) row rows,
              countb-head (counts_as k) row rest.rows,
            ))
      | inr (m, e) ↦
          let (active, found) = matching-some (is_active_ai row) (find_match u unused row) m e in
          let id = m.stored.id in
          let rest = merge_rows u kind (map_delete id unused) rows in
          let at = find_match-map_get u unused row m h found in
          rw (merge_rows-some u kind unused row rows m e) (
            omega (
              arith,
              merge_rows-Keeps k u kind (map_delete id unused) rows
                  (map_delete-IsKeyed id unused h),
              countb-head (counts_as k) row rows,
              countb-head (counts_as k) (matched_row kind m row) rest.rows,
              matched_row-counts_as k kind m row active,
              countb-map_delete (is_severe k) id unused m at,
              length-map_delete id unused m at,
            ))
    ]

-- An earlier finding that is the model's and was neither suppressed nor resolved.
abbrev pub is_active_previous : PreviousRunFinding → Bool
is_active_previous p =
    is_ai p.stored.source && not (is_resolved (carried_status same_scan p.status))

carried_row-counts_as :
    (k : ℕ) (id : Text) (kind : PreviousRunKind) (p : PreviousRunFinding)
    → is_active_previous p ≡ true
    → counts_as k (carried_row id p kind) ≡ is_severe k p
unfolding carried_row is_active_ai
carried_row-counts_as k id same_scan p e = ground (arith, e)
carried_row-counts_as k id base_scan p e = ground (arith, e)

carry_unused-counts_as :
    (k : ℕ) (uuid : ℕ → Text) (n : ℕ) (kind : PreviousRunKind) (m : Unused)
    → All (λ p. is_active_previous p ≡ true) (values m)
    → countb (counts_as k) (carry_unused uuid n kind m) ≡ countb (is_severe k) (values m)
unfolding carry_unused values countb
carry_unused-counts_as k uuid n kind [] h = refl
carry_unused-counts_as k uuid n kind ((i, p) ∷ m) (e, h) =
    rw (carried_row-counts_as k (uuid n) kind p e, carry_unused-counts_as k uuid (suc n) kind m h)
      refl

length-carry_unused :
    (uuid : ℕ → Text) (n : ℕ) (kind : PreviousRunKind) (m : Unused)
    → length (carry_unused uuid n kind m) ≡ length (values m)
unfolding carry_unused values
length-carry_unused uuid n kind [] = refl
length-carry_unused uuid n kind ((i, p) ∷ m) = ap suc (length-carry_unused uuid (suc n) kind m)

merge_rows-All :
    (P : PreviousRunFinding → Type 0) (u : Unicode) (kind : PreviousRunKind) (unused : Unused)
    (rows : List FindingRow)
    → All P (values unused)
    → All P (values (merge_rows u kind unused rows).unused)
merge_rows-All P u kind unused [] h = unfold merge_rows in h
merge_rows-All P u kind unused (row ∷ rows) h =
    elim (Option-cases (matching (is_active_ai row) (find_match u unused row))) [
      | inl e ↦
          rw (merge_rows-none u kind unused row rows e) (merge_rows-All P u kind unused rows h)
      | inr (m, e) ↦ rw (merge_rows-some u kind unused row rows m e) (
          merge_rows-All P u kind (map_delete m.stored.id unused) rows
            (map_delete-All P m.stored.id unused h))
    ]

repeated-counts_as :
    (k : ℕ) (unused : Unused) (row : FindingRow)
    → is_repeated unused row ≡ true
    → counts_as k row ≡ false
unfolding is_active_ai
repeated-counts_as k unused row h = ground (arith, h)

module _ (unused : Unused) (row : FindingRow) (rows : List FindingRow) where
  own_rows_dropped :
      is_repeated unused row ≡ true
      → own_rows base_scan unused (row ∷ rows) ≡ own_rows base_scan unused rows
  unfolding own_rows filterb
  own_rows_dropped e = rw e refl

  own_rows_kept :
      is_repeated unused row ≡ false
      → own_rows base_scan unused (row ∷ rows) ≡ row ∷ own_rows base_scan unused rows
  unfolding own_rows filterb
  own_rows_kept e = rw e refl

abbrev bit : Bool → ℕ
bit b = if b then 1 else 0

-- What the filter of a base scan drops is resolved, so it does not count.
own_rows-counts_as :
    (k : ℕ) (kind : PreviousRunKind) (unused : Unused) (rows : List FindingRow)
    → countb (counts_as k) (own_rows kind unused rows) ≡ countb (counts_as k) rows
own_rows-counts_as k same_scan unused rows = unfold own_rows in refl
own_rows-counts_as k base_scan unused [] = unfold own_rows filterb in refl
own_rows-counts_as k base_scan unused (row ∷ rows) = elim (Bool-cases (is_repeated unused row)) [
  | inl e ↦ rw (own_rows_dropped unused row rows e) (
      omega (
        arith,
        own_rows-counts_as k base_scan unused rows,
        countb-head (counts_as k) row rows,
        ap bit (repeated-counts_as k unused row e),
      ))
  | inr e ↦ rw (own_rows_kept unused row rows e) (
      omega (
        arith,
        own_rows-counts_as k base_scan unused rows,
        countb-head (counts_as k) row rows,
        countb-head (counts_as k) row (own_rows base_scan unused rows),
      ))
]

-- Merging a run with an earlier one keeps every severity: for each level, the merged run has at
-- least as many active findings of that level or above as the earlier run had, and as the new run
-- has by itself. The matched and the not reproduced findings together are the earlier run's, and
-- exactly the latter are added as rows. The earlier findings are the model's, and active.
pub merge_with_previous_run_lem :
    (u : Unicode) (uuid : ℕ → Text) (rows : List FindingRow) (previous : List PreviousRunFinding)
    (kind : PreviousRunKind)
    → All (λ p. is_active_previous p ≡ true) previous
    → let r = merge_with_previous_run u uuid rows previous kind in
      let earlier = values (index_from [] previous) in
      ((k : ℕ)
        → (countb (is_severe k) earlier ≤ countb (counts_as k) r.rows)
          × (countb (counts_as k) rows ≤ countb (counts_as k) r.rows))
      × (r.stats.matched + r.stats.not_reproduced ≡ length earlier)
      × (length r.rows
          ≡ length (own_rows kind (index_from [] previous) rows) + r.stats.not_reproduced)
unfolding merge_with_previous_run
merge_with_previous_run_lem u uuid rows previous kind active =
    let unused = index_from [] previous in
    let own = own_rows kind unused rows in
    let r = merge_rows u kind unused own in
    let keyed = index_from-IsKeyed [] previous tt in
    let all =
      merge_rows-All (λ p. is_active_previous p ≡ true) u kind unused own
        (index_from-All (λ p. is_active_previous p ≡ true) [] previous (unfold values in tt)
          active) in
    let kept = carry_unused uuid 0 kind r.unused in
    (
      (λ k. omega (
        arith,
        merge_rows-Keeps k u kind unused own keyed,
        countb-append (counts_as k) r.rows kept,
        carry_unused-counts_as k uuid 0 kind r.unused all,
        own_rows-counts_as k kind unused rows,
      )),
      omega (arith, merge_rows-Keeps 0 u kind unused own keyed),
      omega (
        arith,
        merge_rows-Keeps 0 u kind unused own keyed,
        length-append r.rows kept,
        length-carry_unused uuid 0 kind r.unused,
      ),
    )
