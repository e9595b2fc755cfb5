-- ===== src/Diff/Script.antt =====
-- An edit script: the independent description of a diff that the line mapping is held to.
-- A script is a list of hunks, each behind the untouched lines before it; what follows the last
-- hunk is untouched.
use critiq_be.Prelude.{
  ℕ, zero, suc, ◌+◌, ◌-◌, Option, none, some, List, [], ◌∷◌, ◌++◌, Text, length, nat_eq,
  if◌then◌else◌,
}
use critiq_be.Diff.Parser.{add, del, context, DiffLine, DiffHunk}

pub data Edit : Type 0 where
  keep delete insert : Text → Edit

pub record Change : Type 0 where
  pub gap : List Text
  pub edits : List Edit

-- The old file and the new file of a run of edits.
abbrev pub old_file : List Edit → List Text
old_file [] = []
old_file (keep t ∷ es) = t ∷ old_file es
old_file (delete t ∷ es) = t ∷ old_file es
old_file (insert t ∷ es) = old_file es

abbrev pub new_file : List Edit → List Text
new_file [] = []
new_file (keep t ∷ es) = t ∷ new_file es
new_file (delete t ∷ es) = new_file es
new_file (insert t ∷ es) = t ∷ new_file es

abbrev pub kept : List Text → List Edit → List Edit
kept [] es = es
kept (t ∷ ts) es = keep t ∷ kept ts es

-- A whole file's edits; `rest` are the lines behind the last hunk.
abbrev pub flatten : List Change → List Text → List Edit
flatten [] rest = kept rest []
flatten (c ∷ cs) rest = kept c.gap (c.edits ++ flatten cs rest)

-- The lines of a hunk, numbered from an old and a new line.
abbrev pub numbered : ℕ → ℕ → List Edit → List DiffLine
numbered o n [] = []
numbered o n (keep t ∷ es) =
    record { kind = context; new_line = some n; old_line = some o; text = t }
    ∷ numbered (suc o) (suc n) es
numbered o n (delete t ∷ es) =
    record { kind = del; new_line = none; old_line = some o; text = t } ∷ numbered (suc o) n es
numbered o n (insert t ∷ es) =
    record { kind = add; new_line = some n; old_line = none; text = t } ∷ numbered o (suc n) es

-- A side with no line names the line before it.
abbrev pub start_of : ℕ → ℕ → ℕ
start_of count line = if nat_eq count 0 then line - 1 else line

abbrev pub hunk_of : ℕ → ℕ → List Edit → DiffHunk
hunk_of o n es = record {
  old_start = start_of (length (old_file es)) o;
  old_count = length (old_file es);
  new_start = start_of (length (new_file es)) n;
  lines = numbered o n es;
}

-- The hunks of a script, as a unified diff numbers them, from the next old and new line.
abbrev pub hunks_of : ℕ → ℕ → List Change → List DiffHunk
hunks_of o n [] = []
hunks_of o n (c ∷ cs) =
    let o' = o + length c.gap in
    let n' = n + length c.gap in
    hunk_of o' n' c.edits
    ∷ hunks_of (o' + length (old_file c.edits)) (n' + length (new_file c.edits)) cs

-- The new number of the `k`-th old line (from 0), where the next new line has number `n`.
abbrev pub track : ℕ → List Edit → ℕ → Option ℕ
track n [] k = some (n + k)
track n (insert t ∷ es) k = track (suc n) es k
track n (keep t ∷ es) zero = some n
track n (keep t ∷ es) (suc k) = track (suc n) es k
track n (delete t ∷ es) zero = none
track n (delete t ∷ es) (suc k) = track n es k
