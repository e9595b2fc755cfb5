-- ===== src/Lifecycle/Matcher.antt =====
-- src/queue/lifecycle/status-matcher.ts: the status of this scan's fresh candidates.
use critiq_be.Prelude.{
  ℕ, Bool, not, ◌&&◌, ◌||◌, Option, none, some, List, [], ◌∷◌, ◌++◌, Text, ℤ, distance, leb,
  text_eq, contains, eq_Text, filterb, map_get, map_set, or_empty, flat_values, if◌then◌else◌,
}
use critiq_be.Findings.{
  FindingSource, FindingCategory, StoredFinding, CandidateFinding, same_source, same_category?,
}
use critiq_be.Similarity.{Unicode, normalize_title, jaro_winkler, at_least}

abbrev pub reopen_line_distance : ℕ
reopen_line_distance = 5

-- Per cent.
abbrev pub reopen_title_similarity : ℕ
reopen_title_similarity = 85

pub record MatchableFinding : Type 0 where
  pub source : FindingSource
  pub file_path : Text
  pub line_start : ℤ
  pub category : Option FindingCategory
  pub title : Text
  pub fingerprint : Text

-- `ResolvedFinding extends MatchableFinding`.
pub record ResolvedFinding : Type 0 where
  pub matchable : MatchableFinding
  pub id : Text
  pub first_seen_scan_id : Text

unfoldable pub drop_persisted_duplicates : List CandidateFinding → List Text → List CandidateFinding
unfolding filterb contains
drop_persisted_duplicates candidates known =
    filterb (λ c. not (contains known c.fingerprint)) candidates

-- The first element that passes a test, and the list without it: `find` and
-- `splice(indexOf(match), 1)`.
abbrev pub keep_back {ℓ} : {A : Type ℓ} → A → Option (A × List A) → Option (A × List A)
keep_back x none = none
keep_back x (some (y, ys)) = some (y, x ∷ ys)

unfoldable pub extract {ℓ} : {A : Type ℓ} → (A → Bool) → List A → Option (A × List A)
extract p [] = none
extract p (x ∷ xs) = let rest = extract p xs in if p x then some (x, xs) else keep_back x rest

abbrev pub or_else {ℓ} : {A : Type ℓ} → Option A → Option A → Option A
or_else none b = b
or_else (some a) b = some a

abbrev pub matchable_of : CandidateFinding → MatchableFinding
matchable_of c = record {
  source = c.source;
  file_path = c.file_path;
  line_start = c.line_start;
  category = c.category;
  title = c.title;
  fingerprint = c.fingerprint;
}

pub record Assigned : Type 0 where
  pub candidate : CandidateFinding
  pub reopens : Option ResolvedFinding

module _ (u : Unicode) where
  unfoldable pub is_same_finding : MatchableFinding → MatchableFinding → Bool
  is_same_finding a b =
      text_eq a.fingerprint b.fingerprint
      || (same_source a.source b.source
          && (text_eq a.file_path b.file_path
              && (same_category? a.category b.category
                  && (leb (distance a.line_start b.line_start) reopen_line_distance
                      && at_least reopen_title_similarity
                          (jaro_winkler (normalize_title u a.title) (normalize_title u b.title))))))

  -- `findReopened`, with the pool that is left when the match is taken out.
  unfoldable pub find_reopened :
      MatchableFinding → List ResolvedFinding → Option (ResolvedFinding × List ResolvedFinding)
  unfolding extract
  find_reopened c pool =
      or_else (extract (λ r. text_eq r.matchable.fingerprint c.fingerprint) pool)
        (extract (λ r. is_same_finding c r.matchable) pool)

  -- The loop of `assignNewOrReopened`, and the pool that it leaves.
  unfoldable pub assign_from :
      List CandidateFinding → List ResolvedFinding → List Assigned × List ResolvedFinding
  assign_from [] pool = ([], pool)
  assign_from (c ∷ cs) pool = elim (find_reopened (matchable_of c) pool) [
    | none ↦
        let (done, left) = assign_from cs pool in
        (record { candidate = c; reopens = none } ∷ done, left)
    | some (r, pool') ↦
        let (done, left) = assign_from cs pool' in
        (record { candidate = c; reopens = some r } ∷ done, left)
  ]

  unfoldable pub assign_new_or_reopened :
      List CandidateFinding → List ResolvedFinding → List Assigned
  unfolding assign_from
  assign_new_or_reopened candidates resolved = (assign_from candidates resolved).0

-- A candidate that continues a base finding.
pub record Continued : Type 0 where
  pub candidate : CandidateFinding
  pub base : StoredFinding

pub record MatchResult : Type 0 where
  pub persisted : List Continued
  pub fresh : List CandidateFinding
  pub resolved : List StoredFinding

abbrev pub Pool : Type 0
Pool = List (Text × List StoredFinding)

-- The first loop: base findings by fingerprint.
unfoldable pub pool_from : Pool → List StoredFinding → Pool
pool_from pool [] = pool
pool_from pool (b ∷ bs) =
    pool_from (map_set b.fingerprint (or_empty (map_get b.fingerprint pool) ++ b ∷ []) pool) bs

-- The second loop; `shift` takes the oldest base finding of the candidate's fingerprint.
unfoldable pub match_from : Pool → List CandidateFinding → MatchResult
unfolding flat_values
match_from pool [] = record { persisted = []; fresh = []; resolved = flat_values pool }
match_from pool (c ∷ cs) = elim (or_empty (map_get c.fingerprint pool)) [
  | [] ↦ let r = match_from pool cs in record r { fresh = c ∷ r.fresh }
  | b ∷ bs ↦
      let r = match_from (map_set c.fingerprint bs pool) cs in
      record r { persisted = record { candidate = c; base = b } ∷ r.persisted }
]

unfoldable pub match_full_against_base : List CandidateFinding → List StoredFinding → MatchResult
unfolding pool_from match_from
match_full_against_base candidates base = match_from (pool_from [] base) candidates
