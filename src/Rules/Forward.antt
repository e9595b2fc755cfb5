-- ===== src/Rules/Forward.antt =====
-- A turn of the scan of src/queue/rules/comment-span.ts goes forward, and stays on the line.
use critiq_be.Prelude.{
  ℕ, zero, suc, ◌+◌, ◌-◌, ◌≤◌, ◌<◌, ◌≡◌, refl, sym, ◌∙◌, arith, true, false, ◌&&◌, ◌||◌, inl, inr,
  Option, none, some, List, [], ◌∷◌, Text, nat_eq, length, drop, starts_with, anyb, Bool-cases, All,
  both_true, none-not-some,
}
use mathlib.Core.Option
use critiq_be.Rules.Syntax.{CommentSyntax}
use critiq_be.Rules.Spans.{
  Turn, next, comment_until, comment_to_end, shift, index_of, index_from, starts_with_at, is_quote,
  closed_block, block_turn, in_quote, line_turn, opens_hash, block_or_line, turn_at,
}

pub starts_with-length : (p s : Text) → starts_with p s ≡ true → length p ≤ length s
unfolding starts_with
starts_with-length [] s h = omega arith
starts_with-length (a ∷ p) [] h = cc
starts_with-length (a ∷ p) (c ∷ s) h =
    let shorter = starts_with-length p s (both_true (nat_eq a c) (starts_with p s) h).1 in
    omega (arith, shorter)

pub length-drop : (n : ℕ) (s : Text) → length (drop n s) ≡ length s - n
length-drop zero s = omega arith
length-drop (suc n) [] = omega arith
length-drop (suc n) (c ∷ s) = omega (arith, length-drop n s)

pub shift-some :
    (n : ℕ) (o : Option ℕ) (k : ℕ) → shift n o ≡ some k → (j : ℕ) × (o ≡ some j) × (n + j ≡ k)
shift-some n none k h = cc
shift-some n (some j) k h = (j, refl, Option.some-injective (n + j) k h)

index_of_here : (p s : Text) → starts_with p s ≡ true → index_of p s ≡ some 0
unfolding index_of
index_of_here p [] e = rw e refl
index_of_here p (c ∷ s) e = rw e refl

index_of_nil : (p : Text) → starts_with p [] ≡ false → index_of p [] ≡ none
unfolding index_of
index_of_nil p e = rw e refl

index_of_later :
    (p : Text) (c : ℕ) (s : Text)
    → starts_with p (c ∷ s) ≡ false
    → index_of p (c ∷ s) ≡ shift 1 (index_of p s)
unfolding index_of
index_of_later p c s e = rw e refl

found_here :
    (p s : Text) (k : ℕ) → starts_with p s ≡ true → index_of p s ≡ some k → k + length p ≤ length s
found_here p s k e h =
    let zero_at = Option.some-injective 0 k (sym (index_of_here p s e) ∙ h) in
    omega (arith, zero_at, starts_with-length p s e)

pub index_of-bound : (p s : Text) (k : ℕ) → index_of p s ≡ some k → k + length p ≤ length s
index_of-bound p [] k h = elim (Bool-cases (starts_with p [])) [
  | inl e ↦ found_here p [] k e h
  | inr e ↦ absurd (none-not-some k (sym (index_of_nil p e) ∙ h))
]
index_of-bound p (c ∷ s) k h = elim (Bool-cases (starts_with p (c ∷ s))) [
  | inl e ↦ found_here p (c ∷ s) k e h
  | inr e ↦
      let (j, found, same) = shift-some 1 (index_of p s) k (sym (index_of_later p c s e) ∙ h) in
      omega (arith, same, index_of-bound p s j found)
]

-- A text found from a position on stands between it and the end of the line.
pub index_from-bound :
    (line p : Text) (start k : ℕ)
    → start ≤ length line
    → index_from line p start ≡ some k
    → (start ≤ k) × (k + length p ≤ length line)
unfolding index_from
index_from-bound line p start k within h =
    let (j, found, same) = shift-some start (index_of p (drop start line)) k h in
    let bound = index_of-bound p (drop start line) j found in
    let rest = length-drop start line in (omega (arith, same), omega (arith, same, bound, rest))

pub starts_with_at-bound :
    (line marker : Text) (i : ℕ)
    → starts_with_at line i marker ≡ true
    → i ≤ length line
    → i + length marker ≤ length line
unfolding starts_with_at
starts_with_at-bound line marker i h within =
    let fits = starts_with-length marker (drop i line) h in
    let rest = length-drop i line in omega (arith, fits, rest)

-- A turn at `i` goes on behind `i`; a comment that it finds ends behind `i`, on the line.
abbrev pub IsForward : (line : Text) → (i : ℕ) → Turn → Type 0
IsForward line i (next quote j) = i < j
IsForward line i (comment_until stop) = (i < stop) × (stop ≤ length line)
IsForward line i comment_to_end = Unit

closed_block-IsForward :
    (line opener close : Text) (i : ℕ) (o : Option ℕ)
    → ((k : ℕ) → o ≡ some k → (i + length opener ≤ k) × (k + length close ≤ length line))
    → 1 ≤ length opener
    → IsForward line i (closed_block close o)
closed_block-IsForward line opener close i none f nonempty = tt
closed_block-IsForward line opener close i (some k) f nonempty =
    let (behind, within) = f k refl in (omega (arith, behind, nonempty), within)

abbrev pub IsForwardIfAny : (line : Text) → (i : ℕ) → Option Turn → Type 0
IsForwardIfAny line i none = Unit
IsForwardIfAny line i (some turn) = IsForward line i turn

-- The openers of block comments are not empty.
abbrev pub HasOpener : Text × Text → Type 0
HasOpener (opener, close) = 1 ≤ length opener

block_turn_here :
    (line opener close : Text) (rest : List (Text × Text)) (i : ℕ)
    → starts_with_at line i opener ≡ true
    → block_turn line ((opener, close) ∷ rest) i
      ≡ some (closed_block close (index_from line close (i + length opener)))
unfolding block_turn
block_turn_here line opener close rest i e = rw e refl

block_turn_later :
    (line opener close : Text) (rest : List (Text × Text)) (i : ℕ)
    → starts_with_at line i opener ≡ false
    → block_turn line ((opener, close) ∷ rest) i ≡ block_turn line rest i
unfolding block_turn
block_turn_later line opener close rest i e = rw e refl

block_turn-IsForward :
    (line : Text) (blocks : List (Text × Text)) (i : ℕ)
    → All HasOpener blocks
    → i ≤ length line
    → IsForwardIfAny line i (block_turn line blocks i)
unfolding block_turn
block_turn-IsForward line [] i nonempty within = tt
block_turn-IsForward line ((opener, close) ∷ rest) i (o, nonempty) within =
    elim (Bool-cases (starts_with_at line i opener)) [
      | inl e ↦ rw (block_turn_here line opener close rest i e) (
          closed_block-IsForward line opener close i (index_from line close (i + length opener))
            (λ k h.
              index_from-bound line close (i + length opener) k
                (starts_with_at-bound line opener i e within) h)
            o)
      | inr e ↦
          rw (block_turn_later line opener close rest i e)
            (block_turn-IsForward line rest i nonempty within)
    ]

in_quote-IsForward : (line : Text) (quote i code : ℕ) → IsForward line i (in_quote quote i code)
in_quote-IsForward line quote i code = elim (Bool-cases (nat_eq code 92)) [
  | inl e ↦ rw e (omega arith)
  | inr e ↦ elim (Bool-cases (nat_eq code quote)) [
    | inl f ↦ rw (e, f) (omega arith)
    | inr f ↦ rw (e, f) (omega arith)
  ]
]

line_turn-IsForward :
    (line : Text) (syntax : CommentSyntax) (i code : ℕ)
    → IsForward line i (line_turn line syntax i code)
line_turn-IsForward line syntax i code =
    elim (Bool-cases (
      anyb (starts_with_at line i) syntax.line
      || nat_eq code 35 && opens_hash line syntax.hash i)) [
        | inl e ↦ rw e tt
        | inr e ↦ rw e (omega arith)
      ]

block_or_line-IsForward :
    (line : Text) (syntax : CommentSyntax) (i code : ℕ) (o : Option Turn)
    → IsForwardIfAny line i o
    → IsForward line i (block_or_line line syntax i code o)
block_or_line-IsForward line syntax i code none f = line_turn-IsForward line syntax i code
block_or_line-IsForward line syntax i code (some turn) f = f

pub turn_at-IsForward :
    (line : Text) (syntax : CommentSyntax) (quote i code : ℕ)
    → All HasOpener syntax.block
    → i ≤ length line
    → IsForward line i (turn_at line syntax quote i code)
unfolding turn_at
turn_at-IsForward line syntax quote i code nonempty within = elim (Bool-cases (nat_eq quote 0)) [
  | inr e ↦ rw e (in_quote-IsForward line quote i code)
  | inl e ↦ elim (Bool-cases (syntax.quotes && is_quote code)) [
    | inl q ↦ rw (e, q) (omega arith)
    | inr q ↦
        rw (e, q)
          (block_or_line-IsForward line syntax i code (block_turn line syntax.block i)
            (block_turn-IsForward line syntax.block i nonempty within))
  ]
]
