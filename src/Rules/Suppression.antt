-- ===== src/Rules/Suppression.antt =====
-- src/queue/suppression.ts, with the path tests of src/queue/rules/path-filter.ts, the language of a
-- file (src/queue/rules/language-detector.ts) and the two tests that src/queue/rules/regex-literal.ts
-- makes of the regex literals of a line. `minimatch` is the package's match of a path, the globs are
-- the program's tables, and finding the literals of a line, which takes JavaScript's own regular
-- expressions, is `regex_spans`.
use critiq_be.Prelude.{
  ℕ, ◌+◌, ◌-◌, ◌*◌, Bool, true, false, not, ◌&&◌, ◌||◌, Option, none, some, List, [], ◌∷◌, Text,
  text_eq, nat_eq, leb, codes, length, starts_with, anyb, if◌then◌else◌,
}
use critiq_be.Similarity.{trim}
use critiq_be.Findings.{SuppressionReason, test_file, regex_literal, comment}
use critiq_be.Rules.Syntax.{after_last, extension_of}
use critiq_be.Rules.Spans.{Span, is_inside_comment}

-- What the file tests and the line tests take from outside the modelled code.
pub record Matching : Type 0 where
  pub minimatch : (file_path glob : Text) → Bool
  pub data_fixture_globs : List Text
  pub must_scan_globs : List Text
  pub test_file_globs : List Text
  pub to_lower : Text → Text
  pub is_space : ℕ → Bool
  pub regex_spans : (line language : Text) → List Span

pub record SuppressionInput : Type 0 where
  pub rule_id : Text
  pub file_path : Text
  pub language : Text
  pub line_text : Option Text
  pub match_at : Option (ℕ × ℕ)

abbrev pub languages : List (Text × Text)
languages =
    (codes "ts", codes "js")
    ∷ (codes "tsx", codes "js")
    ∷ (codes "js", codes "js")
    ∷ (codes "jsx", codes "js")
    ∷ (codes "mjs", codes "js")
    ∷ (codes "cjs", codes "js")
    ∷ (codes "py", codes "py")
    ∷ (codes "go", codes "go")
    ∷ (codes "php", codes "php")
    ∷ (codes "rb", codes "rb")
    ∷ (codes "java", codes "java")
    ∷ (codes "kt", codes "java")
    ∷ []

unfoldable pub language_of : List (Text × Text) → Text → Text
language_of [] extension = codes "*"
language_of ((e, language) ∷ rest) extension =
    let later = language_of rest extension in if text_eq e extension then language else later

unfoldable pub detect_language : (to_lower : Text → Text) → (file_path : Text) → Text
unfolding language_of after_last starts_with
detect_language to_lower file_path =
    let basename = after_last 47 file_path in
    if starts_with (codes "dockerfile") (to_lower basename)
    then codes "dockerfile"
    else language_of languages (to_lower (extension_of basename))

abbrev pub is_secret_or_config : (rule_id : Text) → Bool
is_secret_or_config rule_id =
    starts_with (codes "secret.") rule_id || starts_with (codes "config.") rule_id

unfoldable pub suppresses_on_test_file : (rule_id : Text) → Bool
unfolding starts_with
suppresses_on_test_file rule_id =
    is_secret_or_config rule_id
    || (text_eq rule_id (codes "code.insecure_tls")
        || (text_eq rule_id (codes "code.debugger_left")
            || text_eq rule_id (codes "code.empty_catch")))

abbrev pub suppresses_on_comment : (rule_id : Text) → Bool
suppresses_on_comment rule_id = suppresses_on_test_file rule_id

unfoldable pub is_regex_aware : (rule_id : Text) → Bool
unfolding starts_with
is_regex_aware rule_id = is_secret_or_config rule_id || text_eq rule_id (codes "code.insecure_tls")

abbrev pub total_length : List Span → ℕ
total_length [] = 0
total_length ((start, stop) ∷ spans) = (stop - start) + total_length spans

module _ (m : Matching) where
  unfoldable pub matches_any : (file_path : Text) → (globs : List Text) → Bool
  unfolding anyb
  matches_any file_path globs = anyb (m.minimatch file_path) globs

  unfoldable pub is_data_fixture_path : (file_path : Text) → Bool
  unfolding matches_any
  is_data_fixture_path file_path = matches_any file_path m.data_fixture_globs

  unfoldable pub is_must_scan_path : (file_path : Text) → Bool
  unfolding matches_any
  is_must_scan_path file_path = matches_any file_path m.must_scan_globs

  unfoldable pub is_test_like_path : (file_path : Text) → Bool
  unfolding is_data_fixture_path is_must_scan_path matches_any
  is_test_like_path file_path =
      if is_data_fixture_path file_path
      then true
      else if is_must_scan_path file_path
      then false
      else matches_any file_path m.test_file_globs

  unfoldable pub is_inside_regex_literal :
      (line : Text) → (start size : ℕ) → (language : Text) → Bool
  unfolding anyb
  is_inside_regex_literal line start size language =
      anyb (λ s. leb s.0 start && leb (start + size) s.1) (m.regex_spans line language)

  -- The literals cover 60 % of the trimmed line.
  unfoldable pub is_regex_literal_line : (line language : Text) → Bool
  is_regex_literal_line line language =
      let size = length (trim m.is_space line) in
      not (nat_eq size 0) && leb (size * 6) (total_length (m.regex_spans line language) * 10)

  -- Whether the match is in a comment that suppresses it; none where the test throws.
  abbrev pub comment_test : SuppressionInput → Option Text → Option (ℕ × ℕ) → Option Bool
  comment_test input (some line) (some (start, size)) =
      if suppresses_on_comment input.rule_id && not (is_must_scan_path input.file_path)
      then is_inside_comment m.to_lower line start input.file_path
      else some false
  comment_test input line at = some false

  abbrev pub regex_test : SuppressionInput → Option Text → Option (ℕ × ℕ) → Bool
  regex_test input none at = false
  regex_test input (some line) none =
      is_regex_aware input.rule_id && is_regex_literal_line line input.language
  regex_test input (some line) (some (start, size)) =
      is_regex_aware input.rule_id && is_inside_regex_literal line start size input.language

  abbrev pub after_comment : Bool → Option Bool → Option (Option SuppressionReason)
  after_comment in_regex none = none
  after_comment in_regex (some true) = some (some comment)
  after_comment in_regex (some false) = some (if in_regex then some regex_literal else none)

  -- `classifySuppression`; none outside where a test throws, none inside for an active finding.
  unfoldable pub classify_suppression : SuppressionInput → Option (Option SuppressionReason)
  unfolding suppresses_on_test_file is_regex_aware is_inside_regex_literal is_regex_literal_line
  classify_suppression input =
      if is_data_fixture_path input.file_path
        || is_test_like_path input.file_path && suppresses_on_test_file input.rule_id
      then some (some test_file)
      else after_comment (regex_test input input.line_text input.match_at)
          (comment_test input input.line_text input.match_at)
