-- ===== src/Ai/Dedupe.antt =====
-- `dedupeAiFindings` of src/modules/ai/scan/ai-deduper.ts: the merged findings of the model against
-- the static ones of the same scan.
use critiq_be.Prelude.{
  ℕ, ◌+◌, Bool, true, false, not, ◌&&◌, Option, none, some, List, [], ◌∷◌, ◌++◌, Text, codes,
  text_eq, findb, filterb, map_get, ℤ, pos, ◌-ℤ◌, leb_ℤ,
}
use critiq_be.Findings.{
  SuppressionReason, FindingCategory, secret, config, insecure_tls, same_category?,
}
use critiq_be.Ai.Validator.{Words, SentFile, AiFindingDraft, line_text}
use critiq_be.Ai.Folding.{KeptAiFinding, category_name, merge_ai_findings}
use critiq_be.Rules.Suppression.{Matching, detect_language, classify_suppression}

pub record StaticForDedupe : Type 0 where
  pub id : Text
  pub file_path : Text
  pub line_start : ℕ
  pub line_end : ℕ
  pub category : Option FindingCategory
  pub suppressed_reason : Option SuppressionReason

pub record SuppressibleFinding : Type 0 where
  pub finding : KeptAiFinding
  pub suppressed_reason : Option SuppressionReason

pub record DedupeResult : Type 0 where
  pub kept : List SuppressibleFinding
  pub merged : ℕ
  pub duplicates : List (KeptAiFinding × Text)

abbrev pub line_slack : ℕ
line_slack = 2

unfoldable pub overlaps : KeptAiFinding → StaticForDedupe → Bool
overlaps k s =
    text_eq s.file_path k.draft.file_path
    && (same_category? s.category (some k.draft.category)
        && (leb_ℤ k.draft.line_start (pos (s.line_end + line_slack))
            && leb_ℤ (pos s.line_start -ℤ pos line_slack) k.draft.line_end))

abbrev pub is_active : StaticForDedupe → Bool
is_active s = elim s.suppressed_reason [ none ↦ true | some r ↦ false ]

-- `FAMILY_RULE_ID[category] ?? ai.<category>`
abbrev pub family_rule_id : (to_lower : Text → Text) → FindingCategory → Text
family_rule_id to_lower secret = codes "secret.ai"
family_rule_id to_lower config = codes "config.ai"
family_rule_id to_lower insecure_tls = codes "code.insecure_tls"
family_rule_id to_lower category = codes "ai." ++ to_lower (category_name category)

abbrev pub line_in : Option SentFile → ℤ → Option Text
line_in none line = none
line_in (some file) line = line_text line file.lines

-- `sentFiles?.get(path)?.lines.get(line)`
abbrev pub sent_line : Option (List (Text × SentFile)) → (file_path : Text) → ℤ → Option Text
sent_line none file_path line = none
sent_line (some files) file_path line = line_in (map_get file_path files) line

module _ (m : Matching) where
  abbrev pub inherited_or :
      Option (List (Text × SentFile))
      → KeptAiFinding
      → Option StaticForDedupe
      → Option (Option SuppressionReason)
  inherited_or sent k (some s) = some s.suppressed_reason
  inherited_or sent k none = classify_suppression m (record {
    rule_id = family_rule_id m.to_lower k.draft.category;
    file_path = k.draft.file_path;
    language = detect_language m.to_lower k.draft.file_path;
    line_text = sent_line sent k.draft.file_path k.draft.line_start;
    match_at = none;
  })

  -- None outside where a test throws.
  unfoldable pub suppression_for :
      List StaticForDedupe
      → Option (List (Text × SentFile))
      → KeptAiFinding
      → Option (Option SuppressionReason)
  unfolding classify_suppression findb
  suppression_for suppressed sent k = inherited_or sent k (findb (overlaps k) suppressed)

  abbrev pub keep :
      KeptAiFinding → Option (Option SuppressionReason) → DedupeResult → Option DedupeResult
  keep k none r = none
  keep k (some reason) r =
      some (record r { kept = record { finding = k; suppressed_reason = reason } ∷ r.kept })

  abbrev pub then_keep :
      KeptAiFinding → Option (Option SuppressionReason) → Option DedupeResult → Option DedupeResult
  then_keep k reason none = none
  then_keep k reason (some r) = keep k reason r

  abbrev pub then_duplicate :
      KeptAiFinding → StaticForDedupe → Option DedupeResult → Option DedupeResult
  then_duplicate k s none = none
  then_duplicate k s (some r) = some (record r { duplicates = (k, s.id) ∷ r.duplicates })

  abbrev pub sort_out :
      List StaticForDedupe
      → Option (List (Text × SentFile))
      → KeptAiFinding
      → Option StaticForDedupe
      → Option DedupeResult
      → Option DedupeResult
  sort_out suppressed sent k (some s) r = then_duplicate k s r
  sort_out suppressed sent k none r = then_keep k (suppression_for suppressed sent k) r

  -- The loop over the merged findings.
  unfoldable pub sort_all :
      (active suppressed : List StaticForDedupe)
      → Option (List (Text × SentFile))
      → (folded : ℕ) → List KeptAiFinding
      → Option DedupeResult
  unfolding suppression_for
  sort_all active suppressed sent folded [] =
      some (record { kept = []; merged = folded; duplicates = [] })
  sort_all active suppressed sent folded (k ∷ ks) =
      let rest = sort_all active suppressed sent folded ks in
      sort_out suppressed sent k (findb (overlaps k) active) rest

  unfoldable pub dedupe_ai_findings :
      (sha1 : Text → Text)
      → Words
      → List AiFindingDraft
      → List StaticForDedupe
      → Option (List (Text × SentFile))
      → Option DedupeResult
  unfolding merge_ai_findings sort_all filterb
  dedupe_ai_findings sha1 w findings statics sent =
      let (merged, folded) = merge_ai_findings sha1 w findings in
      sort_all (filterb is_active statics) (filterb (λ s. not (is_active s)) statics) sent folded
        merged
