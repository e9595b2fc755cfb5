-- ===== src/Tests/Lines.antt =====
-- Concrete lines of code.
use critiq_be.Prelude.{◌≡◌, refl, arith, some, List, [], ◌∷◌, Text, codes, length, text_eq}
use critiq_be.Rules.Syntax.{slash, inherited, comment_syntax_for}
use critiq_be.Rules.Spans.{Span, find_comment_spans}
use critiq_be.Rules.Scanning.{AreSpans, find_comment_spans_lem}

abbrev same : Text → Text
same t = t

abbrev url_line : Text
url_line = codes "f(\"http://x\"); /* a */ g(); // b"

url_line_spans : find_comment_spans url_line slash ≡ some ((15, 22) ∷ (28, 32) ∷ [])
unfolding find_comment_spans
url_line_spans = refl

find_comment_spans_lem_example :
    (spans : List Span) × (find_comment_spans url_line slash ≡ some spans)
    × AreSpans 0 (length url_line) spans
find_comment_spans_lem_example = find_comment_spans_lem url_line slash (omega arith, tt)

inherited_syntax : comment_syntax_for same (codes "a/b.constructor") ≡ inherited
unfolding comment_syntax_for text_eq
inherited_syntax = refl
