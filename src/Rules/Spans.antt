-- ===== src/Rules/Spans.antt =====
-- `findCommentSpans`, `commentSpanStart` and `isInsideComment` of src/queue/rules/comment-span.ts. A
-- step of the scan of a line is a function to what it does next; the scan itself is on fuel, for
-- which the length of the line is enough.
use critiq_be.Prelude.{
  ℕ, zero, suc, ◌+◌, Bool, true, false, not, ◌&&◌, ◌||◌, Option, none, some, List, [], ◌∷◌, Text,
  nat_eq, ltb, leb, length, drop, get_elem?, starts_with, anyb, codes, if◌then◌else◌,
}
use critiq_be.Rules.Syntax.{
  HashComments, anywhere, after_space, CommentSyntax, Lookup, known, unknown, inherited,
  comment_syntax_for,
}

abbrev pub Span : Type 0
Span = ℕ × ℕ

-- What one turn of the loop does: go on, go on after a comment, or end with a comment to the end.
pub data Turn : Type 0 where
  next : (quote i : ℕ) → Turn
  comment_until : (stop : ℕ) → Turn
  comment_to_end : Turn

abbrev pub shift : ℕ → Option ℕ → Option ℕ
shift n none = none
shift n (some k) = some (n + k)

-- String.prototype.indexOf.
unfoldable pub index_of : (pattern text : Text) → Option ℕ
unfolding starts_with
index_of pattern [] = if starts_with pattern [] then some 0 else none
index_of pattern (c ∷ text) =
    let later = index_of pattern text in
    if starts_with pattern (c ∷ text) then some 0 else shift 1 later

unfoldable pub index_from : (line pattern : Text) → (start : ℕ) → Option ℕ
unfolding index_of
index_from line pattern start = shift start (index_of pattern (drop start line))

unfoldable pub starts_with_at : (line : Text) → ℕ → (marker : Text) → Bool
unfolding starts_with
starts_with_at line i marker = starts_with marker (drop i line)

abbrev pub is_whitespace_code : ℕ → Bool
is_whitespace_code code = nat_eq code 32 || leb 9 code && leb code 13

abbrev pub is_whitespace_at : Option ℕ → Bool
is_whitespace_at none = false
is_whitespace_at (some code) = is_whitespace_code code

-- `i === 0 || isWhitespaceCode(line.charCodeAt(i - 1))`
abbrev pub is_after_space : (line : Text) → ℕ → Bool
is_after_space line zero = true
is_after_space line (suc i) = is_whitespace_at (get_elem? line i)

abbrev pub opens_hash : (line : Text) → Option HashComments → ℕ → Bool
opens_hash line none i = false
opens_hash line (some anywhere) i = true
opens_hash line (some after_space) i = is_after_space line i

abbrev pub is_quote : ℕ → Bool
is_quote code = nat_eq code 34 || (nat_eq code 39 || nat_eq code 96)

abbrev pub closed_block : (close : Text) → Option ℕ → Turn
closed_block close none = comment_to_end
closed_block close (some close_at) = comment_until (close_at + length close)

-- The first block comment that opens here.
unfoldable pub block_turn : (line : Text) → List (Text × Text) → ℕ → Option Turn
unfolding starts_with_at index_from
block_turn line [] i = none
block_turn line ((opener, close) ∷ rest) i =
    let later = block_turn line rest i in
    if starts_with_at line i opener
    then some (closed_block close (index_from line close (i + length opener)))
    else later

abbrev pub in_quote : (quote i code : ℕ) → Turn
in_quote quote i code =
    if nat_eq code 92
    then next quote (i + 2)
    else if nat_eq code quote
    then next 0 (i + 1)
    else next quote (i + 1)

abbrev pub line_turn : (line : Text) → CommentSyntax → (i code : ℕ) → Turn
line_turn line syntax i code =
    if anyb (starts_with_at line i) syntax.line || nat_eq code 35 && opens_hash line syntax.hash i
    then comment_to_end
    else next 0 (i + 1)

abbrev pub block_or_line : (line : Text) → CommentSyntax → (i code : ℕ) → Option Turn → Turn
block_or_line line syntax i code none = line_turn line syntax i code
block_or_line line syntax i code (some turn) = turn

-- The body of the loop at a character.
unfoldable pub turn_at : (line : Text) → CommentSyntax → (quote i code : ℕ) → Turn
unfolding block_turn anyb
turn_at line syntax quote i code =
    if not (nat_eq quote 0)
    then in_quote quote i code
    else if syntax.quotes && is_quote code
    then next code (i + 1)
    else block_or_line line syntax i code (block_turn line syntax.block i)

abbrev pub with_span : Span → Option (List Span) → Option (List Span)
with_span span none = none
with_span span (some spans) = some (span ∷ spans)

abbrev pub after_turn :
    (continue : (quote i : ℕ) → Option (List Span))
    → (line : Text) → (i : ℕ) → Turn
    → Option (List Span)
after_turn continue line i (next quote j) = continue quote j
after_turn continue line i (comment_until stop) = with_span (i, stop) (continue 0 stop)
after_turn continue line i comment_to_end = some ((i, length line) ∷ [])

abbrev pub at_code :
    (continue : (quote i : ℕ) → Option (List Span))
    → (line : Text) → CommentSyntax
    → (quote i : ℕ) → Option ℕ
    → Option (List Span)
at_code continue line syntax quote i none = some []
at_code continue line syntax quote i (some code) =
    after_turn continue line i (turn_at line syntax quote i code)

-- The loop: none where the fuel runs out before the line does.
unfoldable pub scan_line : (line : Text) → CommentSyntax → (fuel quote i : ℕ) → Option (List Span)
unfolding turn_at
scan_line line syntax zero quote i = if leb (length line) i then some [] else none
scan_line line syntax (suc fuel) quote i =
    let continue = scan_line line syntax fuel in
    at_code continue line syntax quote i (get_elem? line i)

unfoldable pub leading_whitespace : Text → ℕ
leading_whitespace [] = 0
leading_whitespace (c ∷ line) =
    let more = leading_whitespace line in if is_whitespace_code c then suc more else 0

abbrev pub double_quotes : Text
double_quotes = codes "\"\"\""

abbrev pub single_quotes : Text
single_quotes = codes "'''"

unfoldable pub docstring_opener : (line : Text) → (first : ℕ) → Option Text
unfolding starts_with_at
docstring_opener line first =
    if starts_with_at line first double_quotes
    then some double_quotes
    else if starts_with_at line first single_quotes
    then some single_quotes
    else none

abbrev pub docstring_end : (line : Text) → Option ℕ → ℕ
docstring_end line none = length line
docstring_end line (some close) = close + 3

abbrev pub docstring_at : (line : Text) → (first : ℕ) → Option Text → Option Span
docstring_at line first none = none
docstring_at line first (some opener) =
    some (first, docstring_end line (index_from line opener (first + 3)))

-- The docstring that opens at the start of the line.
unfoldable pub docstring_span : (line : Text) → CommentSyntax → Option Span
unfolding docstring_opener leading_whitespace index_from
docstring_span line syntax =
    if syntax.docstring
    then docstring_at line (leading_whitespace line)
        (docstring_opener line (leading_whitespace line))
    else none

abbrev pub scan_after :
    (line : Text) → CommentSyntax → (fuel : ℕ) → Option Span → Option (List Span)
scan_after line syntax fuel none = scan_line line syntax fuel 0 0
scan_after line syntax fuel (some (start, stop)) =
    with_span (start, stop) (scan_line line syntax fuel 0 stop)

unfoldable pub find_comment_spans : (line : Text) → CommentSyntax → Option (List Span)
unfolding docstring_span scan_line
find_comment_spans line syntax = scan_after line syntax (length line) (docstring_span line syntax)

unfoldable pub last_span : List Span → Option Span
last_span [] = none
last_span (s ∷ spans) = elim (last_span spans) [ none ↦ some s | some l ↦ some l ]

-- `commentSpanStart`, where none is -1.
abbrev pub span_start : (line : Text) → Option Span → Option ℕ
span_start line none = none
span_start line (some (start, stop)) = if nat_eq stop (length line) then some start else none

abbrev pub covers : ℕ → Span → Bool
covers match_start (start, stop) = leb start match_start && ltb match_start stop

abbrev pub inside_any : ℕ → Option (List Span) → Option Bool
inside_any match_start none = none
inside_any match_start (some spans) = some (anyb (covers match_start) spans)

-- A property that the table inherits has no `block` to go through: the loop throws on a character.
abbrev pub inherited_throws : (line : Text) → Option Bool
inherited_throws [] = some false
inherited_throws (c ∷ line) = none

abbrev pub inside_by : (line : Text) → (match_start : ℕ) → Lookup → Option Bool
inside_by line match_start unknown = some false
inside_by line match_start inherited = inherited_throws line
inside_by line match_start (known syntax) = inside_any match_start (find_comment_spans line syntax)

-- `isInsideComment`: none where it throws.
unfoldable pub is_inside_comment :
    (lower : Text → Text) → (line : Text) → (match_start : ℕ) → (file_path : Text) → Option Bool
unfolding comment_syntax_for find_comment_spans anyb
is_inside_comment lower line match_start file_path =
    inside_by line match_start (comment_syntax_for lower file_path)

abbrev pub start_by : (line : Text) → Option (List Span) → Option (Option ℕ)
start_by line none = none
start_by line (some spans) = some (span_start line (last_span spans))

-- `commentSpanStart`, with none for -1 inside.
unfoldable pub comment_span_start : (line : Text) → CommentSyntax → Option (Option ℕ)
unfolding find_comment_spans last_span
comment_span_start line syntax = start_by line (find_comment_spans line syntax)
