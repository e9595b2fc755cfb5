-- ===== src/Ai/Validator.antt =====
-- src/modules/ai/scan/ai-result-validator.ts: which reported findings are accepted, and how severe
-- they are taken to be. A report has passed REPORT_REVIEW_SCHEMA: its category and severity are
-- members of the enums. A confidence is a number of millionths.
use critiq_be.Prelude.{
  ℕ, zero, suc, ◌+◌, Bool, true, false, not, ◌&&◌, ◌||◌, Option, none, some, List, [], ◌∷◌, ◌++◌,
  Text, codes, starts_with, length, ltb, leb, nat_eq, anyb, map_get, ℤ, pos, ◌+ℤ◌, ◌-ℤ◌, ltb_ℤ,
  eq_ℤ, if◌then◌else◌,
}
use critiq_be.Findings.{
  FindingSeverity, critical, major, minor, info, FindingCategory, RuleTier, is_none,
}
use critiq_be.Similarity.{trim}
use critiq_be.Diff.LineMapping.{rounds}
use critiq_be.Ai.Tiers.{tier_for_category, is_tier_enabled}

-- What the JavaScript engine knows of Unicode: `\s`, `toLowerCase`, and the replacement of every run
-- of characters that are neither letters nor numbers by a space.
pub record Words : Type 0 where
  pub is_space : ℕ → Bool
  pub to_lower : Text → Text
  pub words_only : Text → Text

-- An entry of `findings`.
pub record Report : Type 0 where
  pub file : Text
  pub line_start : ℤ
  pub line_end : ℤ
  pub category : FindingCategory
  pub severity : FindingSeverity
  pub title : Text
  pub message : Text
  pub confidence : ℕ

pub record SentFile : Type 0 where
  pub added_lines : List ℤ
  pub lines : List (ℤ × Text)

pub record AiFindingDraft : Type 0 where
  pub file_path : Text
  pub line_start : ℤ
  pub line_end : ℤ
  pub category : FindingCategory
  pub severity : FindingSeverity
  pub title : Text
  pub message : Text
  pub confidence : ℕ
  pub reported_severity : FindingSeverity

pub data RejectReason : Type 0 where
  file_not_sent bad_range range_too_long outside_added_lines empty_title : RejectReason
  message_too_short echoes_code tier_disabled : RejectReason

pub record Rejection : Type 0 where
  pub file : Text
  pub reason : RejectReason

pub record ValidationResult : Type 0 where
  pub accepted : List AiFindingDraft
  pub rejected : List Rejection
  pub dropped_low_confidence : ℕ

abbrev pub max_range : ℕ
max_range = 40

abbrev pub min_message_chars : ℕ
min_message_chars = 20

abbrev pub echo_min_title_chars : ℕ
echo_min_title_chars = 12

abbrev pub echo_window_lines : ℕ
echo_window_lines = 5

abbrev pub drop_below : ℕ
drop_below = 500000

abbrev pub downgrade_below : ℕ
downgrade_below = 700000

-- `.replace(/\\/g, '/')`
unfoldable pub slashes : Text → Text
slashes [] = []
slashes (c ∷ s) = (if nat_eq c 92 then 47 else c) ∷ slashes s

-- `.replace(/^(\.\/)+/, '')`
unfoldable pub strip_dots : Text → Text
strip_dots [] = []
strip_dots (c ∷ []) = c ∷ []
strip_dots (c ∷ d ∷ s) =
    let rest = strip_dots s in if nat_eq c 46 && nat_eq d 47 then rest else c ∷ d ∷ s

unfoldable pub normalize_path : Words → Text → Text
normalize_path w path = strip_dots (slashes (trim w.is_space path))

unfoldable pub has_line : ℤ → List ℤ → Bool
unfolding anyb
has_line l lines = anyb (λ x. eq_ℤ x l) lines

unfoldable pub is_reviewable : ℤ → List ℤ → Bool
is_reviewable line added =
    has_line line added || has_line (line -ℤ pos 1) added || has_line (line +ℤ pos 1) added

unfoldable pub line_text : ℤ → List (ℤ × Text) → Option Text
line_text l [] = none
line_text l ((k, t) ∷ lines) = let rest = line_text l lines in if eq_ℤ k l then some t else rest

unfoldable pub normalize_text : Words → Text → Text
normalize_text w text = trim w.is_space (w.words_only (w.to_lower text))

-- String.prototype.includes.
unfoldable pub includes : Text → Text → Bool
unfolding starts_with
includes needle [] = starts_with needle []
includes needle (c ∷ s) = starts_with needle (c ∷ s) || includes needle s

-- The texts that are known of `n` lines from a line on, joined by spaces.
abbrev pub join_text : Option Text → List Text → List Text
join_text none rest = rest
join_text (some t) rest = t ∷ rest

unfoldable pub window : List (ℤ × Text) → ℕ → ℤ → List Text
window lines zero l = []
window lines (suc n) l = join_text (line_text l lines) (window lines n (l +ℤ pos 1))

unfoldable pub join_spaces : List Text → Text
join_spaces [] = []
join_spaces (t ∷ []) = t
join_spaces (t ∷ ts) = t ++ 32 ∷ join_spaces ts

abbrev pub spaced : Text → Text
spaced t = 32 ∷ (t ++ 32 ∷ [])

unfoldable pub echoes_the_code : Words → Text → List (ℤ × Text) → ℤ → ℤ → Bool
echoes_the_code w title lines line_start line_end =
    let needle = normalize_text w title in
    let from = line_start -ℤ pos echo_window_lines in
    let near = window lines (rounds from (line_end +ℤ pos echo_window_lines)) from in
    not (ltb (length needle) echo_min_title_chars)
    && includes (spaced needle) (spaced (normalize_text w (join_spaces near)))

-- `SEVERITY_ORDER[Math.max(0, SEVERITY_ORDER.indexOf(severity) - 1)]`; a severity that is not in
-- the order has index -1.
unfoldable pub downgrade : FindingSeverity → FindingSeverity
downgrade critical = major
downgrade major = minor
downgrade minor = minor
downgrade info = minor

-- HEDGED_TITLE's letters, which match a capital too.
abbrev pub lower_ascii : ℕ → ℕ
lower_ascii c = if leb 65 c && leb c 90 then c + 32 else c

unfoldable pub strip_word : Text → Text → Option Text
strip_word [] s = some s
strip_word (p ∷ ps) [] = none
strip_word (p ∷ ps) (c ∷ s) =
    let rest = strip_word ps s in if nat_eq p (lower_ascii c) then rest else none

-- `\b` behind a letter: the end, or a character that is no letter, digit or underscore.
abbrev pub ends_word : Option Text → Bool
ends_word none = false
ends_word (some []) = true
ends_word (some (c ∷ s)) =
    not (leb 48 c && leb c 57 || leb 65 c && leb c 90 || leb 97 c && leb c 122 || nat_eq c 95)

abbrev pub hedges : List Text
hedges =
    codes "potential"
    ∷ codes "possible"
    ∷ codes "may"
    ∷ codes "might"
    ∷ codes "mungkin"
    ∷ codes "kemungkinan"
    ∷ codes "berpotensi"
    ∷ codes "potensi"
    ∷ codes "bisa jadi"
    ∷ []

unfoldable pub is_hedged : Text → Bool
unfolding anyb strip_word
is_hedged title = anyb (λ word. ends_word (strip_word word title)) hedges

unfoldable pub calibrate_severity : FindingSeverity → ℕ → Text → FindingSeverity
calibrate_severity reported confidence title =
    let s = if ltb confidence downgrade_below then downgrade reported else reported in
    if is_hedged title then downgrade s else s

abbrev pub is_critical : FindingSeverity → Bool
is_critical critical = true
is_critical _ = false

unfoldable pub cap_untiered : FindingCategory → FindingSeverity → FindingSeverity
cap_untiered category severity =
    if is_none (tier_for_category (some category)) && is_critical severity then major else severity

abbrev pub is_breaking_change : FindingCategory → Bool
is_breaking_change FindingCategory.breaking_change = true
is_breaking_change _ = false

abbrev pub knows {ℓ} : {A : Type ℓ} → Option A → Bool
knows none = false
knows (some _) = true

unfoldable pub pointable : FindingCategory → SentFile → ℤ → Bool
pointable category sent line =
    if is_breaking_change category
    then knows (line_text line sent.lines) || is_reviewable line sent.added_lines
    else is_reviewable line sent.added_lines

-- The loop over the `n` lines of the finding.
unfoldable pub all_pointable : FindingCategory → SentFile → ℕ → ℤ → Bool
all_pointable category sent zero l = true
all_pointable category sent (suc n) l =
    pointable category sent l && all_pointable category sent n (l +ℤ pos 1)

-- What one round of `validateAiFindings` decides.
pub data Verdict : Type 0 where
  accept : AiFindingDraft → Verdict
  reject : RejectReason → Verdict
  drop_low_confidence : Verdict

abbrev pub draft_of : Words → Report → AiFindingDraft
draft_of w r = record {
  file_path = normalize_path w r.file;
  line_start = r.line_start;
  line_end = r.line_end;
  category = r.category;
  severity =
      cap_untiered r.category
        (calibrate_severity r.severity r.confidence (trim w.is_space r.title));
  title = trim w.is_space r.title;
  message = trim w.is_space r.message;
  confidence = r.confidence;
  reported_severity = r.severity;
}

abbrev pub is_empty_text : Text → Bool
is_empty_text [] = true
is_empty_text (_ ∷ _) = false

unfoldable pub judge_sent : Words → List RuleTier → Report → SentFile → Verdict
judge_sent w rule_tiers r sent =
    if ltb_ℤ r.line_end r.line_start
    then reject bad_range
    else if ltb_ℤ (pos max_range) (r.line_end -ℤ r.line_start)
    then reject range_too_long
    else if not (is_tier_enabled (tier_for_category (some r.category)) rule_tiers)
    then reject tier_disabled
    else if not (all_pointable r.category sent (rounds r.line_start r.line_end) r.line_start)
    then reject outside_added_lines
    else if is_empty_text (trim w.is_space r.title)
    then reject empty_title
    else if ltb (length (trim w.is_space r.message)) min_message_chars
    then reject message_too_short
    else if echoes_the_code w (trim w.is_space r.title) sent.lines r.line_start r.line_end
    then reject echoes_code
    else if ltb r.confidence drop_below
    then drop_low_confidence
    else accept (draft_of w r)

abbrev pub judge_in : Words → List RuleTier → Report → Option SentFile → Verdict
judge_in w rule_tiers r none = reject file_not_sent
judge_in w rule_tiers r (some sent) = judge_sent w rule_tiers r sent

unfoldable pub judge : Words → List (Text × SentFile) → List RuleTier → Report → Verdict
unfolding map_get
judge w sent_files rule_tiers r =
    judge_in w rule_tiers r (map_get (normalize_path w r.file) sent_files)

abbrev pub record_verdict : Text → ValidationResult → Verdict → ValidationResult
record_verdict file result (accept d) = record result { accepted = result.accepted ++ d ∷ [] }
record_verdict file result (reject reason) = record result {
  rejected = result.rejected ++ record { file = file; reason = reason } ∷ [];
}
record_verdict file result drop_low_confidence = record result {
  dropped_low_confidence = result.dropped_low_confidence + 1;
}

unfoldable pub validate_from :
    Words
    → List (Text × SentFile)
    → List RuleTier
    → ValidationResult
    → List Report
    → ValidationResult
validate_from w sent_files rule_tiers result [] = result
validate_from w sent_files rule_tiers result (r ∷ rs) =
    validate_from w sent_files rule_tiers
      (record_verdict (normalize_path w r.file) result (judge w sent_files rule_tiers r)) rs

abbrev pub no_findings : ValidationResult
no_findings = record { accepted = []; rejected = []; dropped_low_confidence = 0 }

unfoldable pub validate_ai_findings :
    Words → List Report → List (Text × SentFile) → List RuleTier → ValidationResult
unfolding validate_from
validate_ai_findings w findings sent_files rule_tiers =
    validate_from w sent_files rule_tiers no_findings findings
