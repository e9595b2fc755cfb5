-- ===== src/Tests/Answered.antt =====
-- Concrete answers of a model: one too long, one with fields left out, and one seen by a rule.
use critiq_be.Prelude.{
  ℕ, ◌≡◌, refl, Bool, false, not, none, some, List, [], ◌∷◌, Text, text_eq, nat_eq, codes, ◌⊎◌,
  filterb, pos, ◌++◌,
}
use critiq_be.Findings.{injection, critical, test_file}
use critiq_be.Ai.Json.{Json, null, string, array, object, nil, cons, Fields, done, field, get_field}
use critiq_be.Ai.Clamp.{clamp_report_review, truncate_text, summary_limit}
use critiq_be.Ai.Clamped.{IsShort, AreFew, fields_of, clamp_report_review_lem}
use critiq_be.Ai.Repair.{ReviewField, missing_review_fields, last_of, records_of, salvage_review}
use critiq_be.Ai.Salvaging.{salvage_review_lem}
use critiq_be.Ai.Validator.{Words, AiFindingDraft}
use critiq_be.Ai.Folding.{merge_ai_findings}
use critiq_be.Ai.Dedupe.{StaticForDedupe, DedupeResult, is_active, dedupe_ai_findings}
use critiq_be.Ai.Deduping.{IsSorted, dedupe_ai_findings_lem}
use critiq_be.Rules.Suppression.{Matching}

abbrev is_blank : ℕ → Bool
is_blank c = nat_eq c 32

truncated : truncate_text is_blank (codes "One two. Three four") 12 ≡ codes "One two." ++ 8230 ∷ []
unfolding truncate_text
truncated = refl

abbrev finding : Json
finding =
    object (field (codes "title") (string (codes "Query")) (field (codes "line_start") null done))

abbrev answer : Json
answer = object (
    field (codes "risk_level") (string (codes "low"))
      (field (codes "findings") (array (cons finding nil)) done))

summary_apart : text_eq (codes "summary") (codes "risk_level") ≡ false
unfolding text_eq
summary_apart = refl

findings_apart : text_eq (codes "findings") (codes "risk_level") ≡ false
unfolding text_eq
findings_apart = refl

clamp_report_review_lem_example :
    IsShort summary_limit
      (get_field (codes "summary") (fields_of (clamp_report_review is_blank answer).0))
    × AreFew (get_field (codes "findings") (fields_of (clamp_report_review is_blank answer).0))
    × (get_field (codes "risk_level") (fields_of (clamp_report_review is_blank answer).0)
        ≡ get_field (codes "risk_level") (fields_of answer))
clamp_report_review_lem_example =
    clamp_report_review_lem is_blank answer (codes "risk_level") summary_apart findings_apart

abbrev attempts : List Json
attempts = object (field (codes "summary") (string (codes "Fine.")) done) ∷ answer ∷ null ∷ []

salvage_review_lem_example :
    ((last_of (records_of attempts) ≡ none) × (salvage_review attempts ≡ none))
    ⊎ ((base : Fields) × (fs : Fields) × (defaulted : List ReviewField) × (last_of
            (records_of attempts)
          ≡ some base)
        × (salvage_review attempts ≡ some (fs, defaulted))
        × (missing_review_fields (object fs) ≡ [])
        × (get_field (codes "risk_level") fs ≡ get_field (codes "risk_level") base))
salvage_review_lem_example =
    salvage_review_lem attempts (codes "risk_level") summary_apart findings_apart

abbrev words : Words
words = record { is_space = is_blank; to_lower = λ t. t; words_only = λ t. t }

abbrev hash : Text → Text
hash t = 35 ∷ t

abbrev matching : Matching
matching = record {
  minimatch = text_eq;
  data_fixture_globs = [];
  must_scan_globs = codes ".env" ∷ [];
  test_file_globs = codes "a.test.ts" ∷ [];
  to_lower = λ t. t;
  is_space = is_blank;
  regex_spans = λ line language. [];
}

abbrev draft : AiFindingDraft
draft = record {
  file_path = codes "a.ts";
  line_start = pos 4;
  line_end = pos 6;
  category = injection;
  severity = critical;
  title = codes "SQL is built from input";
  message = codes "The query joins text of the request.";
  confidence = 900000;
  reported_severity = critical;
}

abbrev static_hit : StaticForDedupe
static_hit = record {
  id = codes "f1";
  file_path = codes "a.ts";
  line_start = 8;
  line_end = 8;
  category = some injection;
  suppressed_reason = none;
}

abbrev set_aside : StaticForDedupe
set_aside = record static_hit { id = codes "f2"; suppressed_reason = some test_file }

dedupe_ai_findings_lem_example :
    (r : DedupeResult) × (dedupe_ai_findings matching hash words
        (draft ∷ [])
        (static_hit ∷ set_aside ∷ [])
        none
      ≡ some r)
    × IsSorted matching
        (filterb is_active (static_hit ∷ set_aside ∷ []))
        (filterb (λ s. not (is_active s)) (static_hit ∷ set_aside ∷ []))
        none
        (merge_ai_findings hash words (draft ∷ [])).1
        (merge_ai_findings hash words (draft ∷ [])).0
        r
dedupe_ai_findings_lem_example =
    dedupe_ai_findings_lem matching hash words (draft ∷ []) (static_hit ∷ set_aside ∷ []) none
