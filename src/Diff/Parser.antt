-- ===== src/Diff/Parser.antt =====
-- src/queue/diff/diff-parser.ts: a file's unified diff, read into hunks with line numbers.
-- A JavaScript string is the list of its UTF-16 code units. Line numbers are natural numbers
-- (`Number` is exact on them up to 2 ^ 53).
use critiq_be.Prelude.{
  ℕ, suc, ◌+◌, ◌-◌, ◌*◌, Bool, ◌&&◌, Option, none, some, List, [], ◌∷◌, ◌++◌, Text, leb, nat_eq,
  if◌then◌else◌,
}

pub data LineType : Type 0 where
  add del context : LineType

pub record DiffLine : Type 0 where
  pub kind : LineType
  pub new_line : Option ℕ
  pub old_line : Option ℕ
  pub text : Text

pub record DiffHunk : Type 0 where
  pub old_start : ℕ
  pub old_count : ℕ
  pub new_start : ℕ
  pub lines : List DiffLine

infixl 5 ◌>>=◌
abbrev pub ◌>>=◌ {ℓ κ} : {A : Type ℓ} {B : Type κ} → Option A → (A → Option B) → Option B
none >>= k = none
some a >>= k = k a

-- `patch.split('\n')`.
abbrev pub push_first : ℕ → List Text → List Text
push_first c [] = (c ∷ []) ∷ []
push_first c (l ∷ ls) = (c ∷ l) ∷ ls

unfoldable pub split_lines : Text → List Text
split_lines [] = [] ∷ []
split_lines (c ∷ s) =
    let rest = split_lines s in if nat_eq c 10 then [] ∷ rest else push_first c rest

abbrev pub is_digit : ℕ → Bool
is_digit c = leb 48 c && leb c 57

-- The longest run of digits, added to the number read so far.
unfoldable pub digits_from : ℕ → Text → ℕ × Text
digits_from n [] = (n, [])
digits_from n (c ∷ s) =
    let more = digits_from (n * 10 + (c - 48)) s in if is_digit c then more else (n, c ∷ s)

-- `(\d+)`
unfoldable pub number : Text → Option (ℕ × Text)
unfolding digits_from
number [] = none
number (c ∷ s) = if is_digit c then some (digits_from (c - 48) s) else none

unfoldable pub expect : Text → Text → Option Text
expect [] s = some s
expect (p ∷ ps) [] = none
expect (p ∷ ps) (c ∷ s) = let rest = expect ps s in if nat_eq p c then rest else none

-- `(?:,(\d+))?`: where no number follows the comma, nothing is read.
abbrev pub counted : Text → Option (ℕ × Text) → Option ℕ × Text
counted s none = (none, s)
counted s (some (n, rest)) = (some n, rest)

unfoldable pub count : Text → Option ℕ × Text
unfolding expect
count s = counted s (do r ← expect (b',' ∷ []) s; number r)

-- The numbers of a hunk's header: the old start, the old count and the new start.
pub record Header : Type 0 where
  pub old_start : ℕ
  pub old_count : Option ℕ
  pub new_start : ℕ

-- `HUNK_HEADER_PATTERN`. A greedy run of digits is followed by a character that is no digit, so
-- the regular expression never gains by giving a digit back.
unfoldable pub header : Text → Option Header
unfolding expect
header line = do
  s ← expect (b'@' ∷ b'@' ∷ b' ' ∷ b'-' ∷ []) line
  old ← number s
  t ← expect (b' ' ∷ b'+' ∷ []) (count old.1).1
  new ← number t
  end ← expect (b' ' ∷ b'@' ∷ b'@' ∷ []) (count new.1).1
  some (record { old_start = old.0; old_count = (count old.1).0; new_start = new.0 })

-- The loop's variables. `hunks` holds the hunks before `current`, which the source has pushed
-- already and goes on filling.
pub record ParseState : Type 0 where
  pub hunks : List DiffHunk
  pub current : Option DiffHunk
  pub next_new : ℕ
  pub next_old : ℕ

abbrev pub closed : List DiffHunk → Option DiffHunk → List DiffHunk
closed hunks none = hunks
closed hunks (some h) = hunks ++ h ∷ []

abbrev pub or_one : Option ℕ → ℕ
or_one none = 1
or_one (some n) = n

unfoldable pub start_hunk : ParseState → Header → ParseState
start_hunk s h = record {
  hunks = closed s.hunks s.current;
  current = some (record {
    old_start = h.old_start;
    old_count = or_one h.old_count;
    new_start = h.new_start;
    lines = [];
  });
  next_new = h.new_start;
  next_old = h.old_start;
}

abbrev pub push_line : DiffHunk → DiffLine → DiffHunk
push_line h l = record h { lines = h.lines ++ l ∷ [] }

abbrev pub context_line : ParseState → DiffHunk → Text → ParseState
context_line s h text = record s {
  current = some (
      push_line h (record {
        kind = context;
        new_line = some s.next_new;
        old_line = some s.next_old;
        text = text;
      }));
  next_new = suc s.next_new;
  next_old = suc s.next_old;
}

-- A line inside a hunk, by its first character; any other prefix is skipped.
unfoldable pub body_line : ParseState → DiffHunk → Text → ParseState
body_line s h [] = context_line s h []
body_line s h (c ∷ text) =
    if nat_eq c b'+'
    then record s {
      current = some (
          push_line h
            (record { kind = add; new_line = some s.next_new; old_line = none; text = text }));
      next_new = suc s.next_new;
    }
    else if nat_eq c b'-'
    then record s {
      current = some (
          push_line h
            (record { kind = del; new_line = none; old_line = some s.next_old; text = text }));
      next_old = suc s.next_old;
    }
    else if nat_eq c b' '
    then context_line s h text
    else s

abbrev pub in_hunk : ParseState → Option DiffHunk → Text → ParseState
unfolding body_line
in_hunk s none line = s
in_hunk s (some h) line = body_line s h line

abbrev pub step_header : ParseState → Text → Option Header → ParseState
unfolding start_hunk body_line
step_header s line none = in_hunk s s.current line
step_header s line (some h) = start_hunk s h

-- One round of the loop over the patch's lines.
unfoldable pub step : ParseState → Text → ParseState
unfolding start_hunk body_line
step s line = step_header s line (header line)

abbrev pub initial : ParseState
initial = record { hunks = []; current = none; next_new = 0; next_old = 0 }

unfoldable pub parse_lines : ParseState → List Text → ParseState
parse_lines s [] = s
parse_lines s (l ∷ ls) = parse_lines (step s l) ls

unfoldable pub parse_patch : Text → List DiffHunk
parse_patch patch = let s = parse_lines initial (split_lines patch) in closed s.hunks s.current
