-- ===== src/Ai/Deduping.antt =====
-- `dedupeAiFindings` of src/modules/ai/scan/ai-deduper.ts as a whole.
use critiq_be.Prelude.{
  ℕ, ◌+◌, ◌≡◌, refl, sym, ap, ◌∙◌, arith, Bool, true, false, not, ◌&&◌, ◌||◌, inl, inr, Option,
  none, some, List, [], ◌∷◌, Text, findb, filterb, countb, if◌then◌else◌, Bool-cases, Option-cases,
  All, anyb, findb-none, findb_hit, findb_skip, none-not-some, text_eq, text_eq_iff,
}
use mathlib.Core.Option
use critiq_be.Findings.{SuppressionReason, test_file, regex_literal}
use critiq_be.Ai.Validator.{Words, SentFile, AiFindingDraft}
use critiq_be.Ai.Folding.{KeptAiFinding, merge_ai_findings}
use critiq_be.Ai.Dedupe.{
  StaticForDedupe, SuppressibleFinding, DedupeResult, overlaps, is_active, suppression_for,
  sort_all, dedupe_ai_findings, family_rule_id, sent_line,
}
use critiq_be.Rules.Suppression.{
  Matching, SuppressionInput, classify_suppression, is_data_fixture_path, is_test_like_path,
  suppresses_on_test_file, regex_test, comment_test, after_comment, detect_language,
}

comment_none :
    (m : Matching) (input : SuppressionInput) (line : Option Text)
    → comment_test m input line none ≡ some false
comment_none m input none = refl
comment_none m input (some line) = refl

classified_by :
    (m : Matching) (b in_regex : Bool) (o : Option Bool)
    → o ≡ some false
    → (reason : Option SuppressionReason) × ((if b
          then some (some test_file)
          else after_comment m in_regex o)
        ≡ some reason)
classified_by m true in_regex o e = (some test_file, refl)
classified_by m false in_regex o e = (if in_regex then some regex_literal else none, rw e refl)

-- A finding without a column is never tested for a comment, so that no test throws.
classified :
    (m : Matching) (input : SuppressionInput)
    → input.match_at ≡ none
    → (reason : Option SuppressionReason) × (classify_suppression m input ≡ some reason)
unfolding classify_suppression
classified m input e =
    classified_by m
      (is_data_fixture_path m input.file_path
        || is_test_like_path m input.file_path && suppresses_on_test_file input.rule_id)
      (regex_test m input input.line_text input.match_at)
      (comment_test m input input.line_text input.match_at)
      (rw e (comment_none m input input.line_text))

abbrev pub IsNew : List StaticForDedupe → SuppressibleFinding → Type 0
IsNew active x = anyb (overlaps x.finding) active ≡ false

abbrev pub HasReason :
    Matching → List StaticForDedupe → Option (List (Text × SentFile)) → SuppressibleFinding → Type 0
HasReason m suppressed sent x =
    suppression_for m suppressed sent x.finding ≡ some x.suppressed_reason

-- The finding overlaps an active static finding with the identifier.
abbrev pub IsDuplicateOf : List StaticForDedupe → KeptAiFinding × Text → Type 0
IsDuplicateOf active (k, id) = anyb (λ s. overlaps k s && text_eq s.id id) active ≡ true

module _ (m : Matching) (active suppressed : List StaticForDedupe)
    (sent : Option (List (Text × SentFile))) where
  -- The loop, with the merged findings that it goes through.
  abbrev pub IsSorted : (folded : ℕ) → List KeptAiFinding → DedupeResult → Type 0
  IsSorted folded ks r =
      (r.merged ≡ folded)
      × ((q : KeptAiFinding → Bool)
          → countb (λ x. q x.finding) r.kept + countb (λ d. q d.0) r.duplicates ≡ countb q ks)
      × All (IsNew active) r.kept
      × All (HasReason m suppressed sent) r.kept
      × All (IsDuplicateOf active) r.duplicates

  reasoned :
      (k : KeptAiFinding)
      → (reason : Option SuppressionReason) × (suppression_for m suppressed sent k ≡ some reason)
  unfolding suppression_for
  reasoned k = elim (Option-cases (findb (overlaps k) suppressed)) [
    | inl e ↦ rw e (
        classified m
          (record {
            rule_id = family_rule_id m.to_lower k.draft.category;
            file_path = k.draft.file_path;
            language = detect_language m.to_lower k.draft.file_path;
            line_text = sent_line sent k.draft.file_path k.draft.line_start;
            match_at = none;
          })
          refl)
    | inr (s, e) ↦ (s.suppressed_reason, rw e refl)
  ]

  duplicate_found :
      (k : KeptAiFinding) (s : StaticForDedupe) (xs : List StaticForDedupe)
      → findb (overlaps k) xs ≡ some s
      → anyb (λ x. overlaps k x && text_eq x.id s.id) xs ≡ true
  unfolding anyb findb
  duplicate_found k s [] h = absurd (none-not-some s h)
  duplicate_found k s (x ∷ xs) h = elim (Bool-cases (overlaps k x)) [
    | inl e ↦
        let same = Option.some-injective x s (sym (findb_hit (overlaps k) x xs e) ∙ h) in
        rw (e, (text_eq_iff x.id s.id).1 (ap (λ s. s.id) same)) refl
    | inr e ↦ rw e (duplicate_found k s xs (sym (findb_skip (overlaps k) x xs e) ∙ h))
  ]

  sort_all-IsSorted :
      (folded : ℕ) (ks : List KeptAiFinding)
      → (r : DedupeResult) × (sort_all m active suppressed sent folded ks ≡ some r)
        × IsSorted folded ks r
  unfolding sort_all countb
  sort_all-IsSorted folded [] =
      (record { kept = []; merged = folded; duplicates = [] }, refl, (refl, λ q. refl, tt, tt, tt))
  sort_all-IsSorted folded (k ∷ ks) =
      let (r, e, (f, n, new, reasons, dups)) = sort_all-IsSorted folded ks in
      elim (Option-cases (findb (overlaps k) active)) [
        | inl absent ↦
            let (reason, why) = reasoned k in
            (
              record r { kept = record { finding = k; suppressed_reason = reason } ∷ r.kept },
              rw (absent, e, why) refl,
              (
                f,
                λ q. omega (arith, n q),
                (findb-none (overlaps k) active absent, new),
                (why, reasons),
                dups,
              ),
            )
        | inr (s, present) ↦ (
          record r { duplicates = (k, s.id) ∷ r.duplicates },
          rw (present, e) refl,
          (f, λ q. omega (arith, n q), new, reasons, (duplicate_found k s active present, dups)),
        )
      ]

-- Comparing the model's findings with the static ones never throws, and loses none of those that
-- are left after they were merged, nor changes or repeats one: of those that pass any test, as many
-- are kept or named a duplicate as there were. A kept one has no active static finding of its file
-- and category within two lines of it, and the reason for which it is suppressed; a duplicate names
-- an active static finding that is. The count of folded findings is the merge's.
pub dedupe_ai_findings_lem :
    (m : Matching) (sha1 : Text → Text) (w : Words) (findings : List AiFindingDraft)
    (statics : List StaticForDedupe) (sent : Option (List (Text × SentFile)))
    → (r : DedupeResult) × (dedupe_ai_findings m sha1 w findings statics sent ≡ some r)
      × IsSorted m
          (filterb is_active statics)
          (filterb (λ s. not (is_active s)) statics)
          sent
          (merge_ai_findings sha1 w findings).1
          (merge_ai_findings sha1 w findings).0
          r
unfolding dedupe_ai_findings
dedupe_ai_findings_lem m sha1 w findings statics sent =
    sort_all-IsSorted m (filterb is_active statics) (filterb (λ s. not (is_active s)) statics) sent
      (merge_ai_findings sha1 w findings).1 (merge_ai_findings sha1 w findings).0
