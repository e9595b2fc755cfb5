-- ===== src/Rules/Scanning.antt =====
-- `findCommentSpans` and `isInsideComment` of src/queue/rules/comment-span.ts on any line.
use critiq_be.Prelude.{
  ℕ, zero, suc, ◌+◌, ◌≤◌, ◌<◌, ◌≡◌, ◌⊎◌, refl, arith, true, inl, inr, Option, none, some, List, [],
  ◌∷◌, Text, text_eq, le→leb, length, get_elem?, anyb, Bool-cases, All,
}
use critiq_be.Rules.Syntax.{
  CommentSyntax, Lookup, known, unknown, inherited, find_registered, is_inherited,
}
use critiq_be.Rules.Spans.{
  Span, Turn, next, comment_until, comment_to_end, starts_with_at, index_from, turn_at, after_turn,
  at_code, scan_line, leading_whitespace, double_quotes, single_quotes, docstring_opener,
  docstring_at, docstring_end, docstring_span, scan_after, find_comment_spans,
}
use critiq_be.Rules.Forward.{
  HasOpener, IsForward, turn_at-IsForward, starts_with_at-bound, index_from-bound,
}

-- Nonempty spans in the order of the line, none before `low` or past `high`, and no two overlap.
abbrev pub AreSpans : (low high : ℕ) → List Span → Type 0
AreSpans low high [] = Unit
AreSpans low high ((start, stop) ∷ spans) =
    (low ≤ start) × (start < stop) × (stop ≤ high) × AreSpans stop high spans

AreSpans-lower :
    (low low' high : ℕ) (spans : List Span)
    → low' ≤ low
    → AreSpans low high spans
    → AreSpans low' high spans
AreSpans-lower low low' high [] le a = tt
AreSpans-lower low low' high ((start, stop) ∷ spans) le (l, s, h, a) =
    (omega (arith, le, l), s, h, a)

-- A scan that ends, with spans from `low` on.
abbrev pub Scans : (low high : ℕ) → Option (List Span) → Type 0
Scans low high result = (spans : List Span) × (result ≡ some spans) × AreSpans low high spans

get_elem?-some-lt : (line : Text) (i code : ℕ) → get_elem? line i ≡ some code → i < length line
get_elem?-some-lt [] i code h = cc
get_elem?-some-lt (c ∷ line) zero code h = omega arith
get_elem?-some-lt (c ∷ line) (suc i) code h = omega (arith, get_elem?-some-lt line i code h)

after_turn-Scans :
    (continue : ℕ → ℕ → Option (List Span)) (line : Text) (i : ℕ) (turn : Turn)
    → ((quote j : ℕ) → i < j → Scans j (length line) (continue quote j))
    → i < length line
    → IsForward line i turn
    → Scans i (length line) (after_turn continue line i turn)
after_turn-Scans continue line i (next quote j) f within forward =
    let (spans, e, a) = f quote j forward in
    (spans, e, AreSpans-lower j i (length line) spans (omega (arith, forward)) a)
after_turn-Scans continue line i (comment_until stop) f within (forward, stops) =
    let (spans, e, a) = f 0 stop forward in
    ((i, stop) ∷ spans, rw e refl, (omega arith, forward, stops, a))
after_turn-Scans continue line i comment_to_end f within forward =
    ((i, length line) ∷ [], refl, (omega arith, within, omega arith, tt))

at_code-Scans :
    (continue : ℕ → ℕ → Option (List Span)) (line : Text) (syntax : CommentSyntax) (quote i : ℕ)
    (o : Option ℕ)
    → ((q j : ℕ) → i < j → Scans j (length line) (continue q j))
    → ((code : ℕ) → o ≡ some code → i < length line)
    → All HasOpener syntax.block
    → Scans i (length line) (at_code continue line syntax quote i o)
at_code-Scans continue line syntax quote i none f at nonempty = ([], refl, tt)
at_code-Scans continue line syntax quote i (some code) f at nonempty =
    let within = at code refl in
    after_turn-Scans continue line i (turn_at line syntax quote i code) f within
      (turn_at-IsForward line syntax quote i code nonempty (omega (arith, within)))

-- Fuel for the rest of the line is enough.
scan_line-Scans :
    (line : Text) (syntax : CommentSyntax) (fuel quote i : ℕ)
    → All HasOpener syntax.block
    → length line ≤ i + fuel
    → Scans i (length line) (scan_line line syntax fuel quote i)
unfolding scan_line
scan_line-Scans line syntax zero quote i nonempty enough =
    ([], rw (le→leb (length line) i (omega (arith, enough))) refl, tt)
scan_line-Scans line syntax (suc fuel) quote i nonempty enough =
    at_code-Scans (scan_line line syntax fuel) line syntax quote i (get_elem? line i)
      (λ q j forward.
        scan_line-Scans line syntax fuel q j nonempty (omega (arith, enough, forward)))
      (get_elem?-some-lt line i) nonempty

abbrev pub IsDocstring : (line : Text) → Option Span → Type 0
IsDocstring line none = Unit
IsDocstring line (some (start, stop)) = (start < stop) × (stop ≤ length line)

docstring_end-bound :
    (line opener : Text) (start : ℕ) (o : Option ℕ)
    → length opener ≡ 3
    → start + 3 ≤ length line
    → ((k : ℕ) → o ≡ some k → (start + 3 ≤ k) × (k + length opener ≤ length line))
    → (start < docstring_end line o) × (docstring_end line o ≤ length line)
docstring_end-bound line opener start none three within f = (omega (arith, within), omega arith)
docstring_end-bound line opener start (some k) three within f =
    let (behind, fits) = f k refl in (omega (arith, behind), omega (arith, fits, three))

docstring_opener-cases :
    (line : Text) (first : ℕ)
    → (docstring_opener line first ≡ none)
      ⊎ ((opener : Text) × (docstring_opener line first ≡ some opener)
          × (length opener ≡ 3)
          × (starts_with_at line first opener ≡ true))
unfolding docstring_opener
docstring_opener-cases line first = elim (Bool-cases (starts_with_at line first double_quotes)) [
  | inl e ↦ inr (double_quotes, rw e refl, refl, e)
  | inr e ↦ elim (Bool-cases (starts_with_at line first single_quotes)) [
    | inl f ↦ inr (single_quotes, rw (e, f) refl, refl, f)
    | inr f ↦ inl (rw (e, f) refl)
  ]
]

leading_whitespace-le : (line : Text) → leading_whitespace line ≤ length line
unfolding leading_whitespace
leading_whitespace-le [] = omega arith
leading_whitespace-le (c ∷ line) = ground (arith, leading_whitespace-le line)

docstring_at-IsDocstring :
    (line : Text) (first : ℕ)
    → first ≤ length line
    → IsDocstring line (docstring_at line first (docstring_opener line first))
docstring_at-IsDocstring line first within = elim (docstring_opener-cases line first) [
  | inl e ↦ rw e tt
  | inr (opener, e, three, opens) ↦ rw e (
      let fits : first + length opener ≤ length line =
        starts_with_at-bound line opener first opens within in
      let enough : first + 3 ≤ length line = omega (arith, three, fits) in
      docstring_end-bound line opener first (index_from line opener (first + 3)) three enough
        (λ k h. index_from-bound line opener (first + 3) k enough h))
]

docstring_span-IsDocstring :
    (line : Text) (syntax : CommentSyntax) → IsDocstring line (docstring_span line syntax)
unfolding docstring_span
docstring_span-IsDocstring line syntax = elim (Bool-cases syntax.docstring) [
  | inl e ↦
      rw e (docstring_at-IsDocstring line (leading_whitespace line) (leading_whitespace-le line))
  | inr e ↦ rw e tt
]

scan_after-Scans :
    (line : Text) (syntax : CommentSyntax) (o : Option Span)
    → All HasOpener syntax.block
    → IsDocstring line o
    → Scans 0 (length line) (scan_after line syntax (length line) o)
scan_after-Scans line syntax none nonempty doc =
    scan_line-Scans line syntax (length line) 0 0 nonempty (omega arith)
scan_after-Scans line syntax (some (start, stop)) nonempty (s, h) =
    let (spans, e, a) = scan_line-Scans line syntax (length line) 0 stop nonempty (omega arith) in
    ((start, stop) ∷ spans, rw e refl, (omega arith, s, h, a))

-- The scan of a line always ends: with a turn for each character as fuel, and for a syntax whose
-- block comments open with some text, it gives spans that are not empty, lie on the line, come in
-- its order and do not overlap.
pub find_comment_spans_lem :
    (line : Text) (syntax : CommentSyntax)
    → All HasOpener syntax.block
    → (spans : List Span) × (find_comment_spans line syntax ≡ some spans)
      × AreSpans 0 (length line) spans
unfolding find_comment_spans
find_comment_spans_lem line syntax nonempty =
    scan_after-Scans line syntax (docstring_span line syntax) nonempty
      (docstring_span-IsDocstring line syntax)

-- The table's syntaxes, and the files' that have one by their name.
abbrev pub OpensBlocks : Lookup → Type 0
OpensBlocks (known syntax) = All HasOpener syntax.block
OpensBlocks unknown = Unit
OpensBlocks inherited = Unit

pub find_registered-OpensBlocks :
    (table : List (CommentSyntax × List Text)) (extension : Text)
    → All (λ entry. OpensBlocks (known entry.0)) table
    → OpensBlocks (find_registered table extension)
unfolding find_registered
find_registered-OpensBlocks [] extension a = elim (Bool-cases (is_inherited extension)) [
  | inl e ↦ rw e tt
  | inr e ↦ rw e tt
]
find_registered-OpensBlocks ((syntax, extensions) ∷ rest) extension (s, a) =
    elim (Bool-cases (anyb (λ e. text_eq e extension) extensions)) [
      | inl e ↦ rw e s
      | inr e ↦ rw e (find_registered-OpensBlocks rest extension a)
    ]
