-- ===== src/Diff/Reading.antt =====
-- The loop of `parsePatch` in src/queue/diff/diff-parser.ts, line by line over the diff of an edit
-- script.
use mathlib.Core.List.{map, append-nil, append_assoc}
use native.Mathlib.Nat.{add-zero}
use critiq_be.Prelude.{
  ℕ, suc, ◌+◌, ◌≡◌, refl, ◌∙◌, inl, inr, some, List, [], ◌∷◌, ◌++◌, Text, length, nat_eq, arith,
  Bool-cases,
}
use critiq_be.Diff.Parser.{DiffHunk, header, ParseState, closed, step, parse_lines}
use critiq_be.Diff.Headers.{header-render_header}
use critiq_be.Diff.Script.{
  Edit, keep, delete, insert, Change, old_file, new_file, numbered, start_of, hunk_of, hunks_of,
}
use critiq_be.Diff.Render.{render_edit, render_header, render_lines}

-- The loop's state inside a hunk.
abbrev inside : List DiffHunk → DiffHunk → ℕ → ℕ → ParseState
inside hs h o n = record { hunks = hs; current = some h; next_new = n; next_old = o }

abbrev next_old : ℕ → Edit → ℕ
next_old o (insert t) = o
next_old o _ = suc o

abbrev next_new : ℕ → Edit → ℕ
next_new n (delete t) = n
next_new n _ = suc n

step-edit :
    (hs : List DiffHunk) (h : DiffHunk) (o n : ℕ) (e : Edit)
    → step (inside hs h o n) (render_edit e)
      ≡ inside hs
          (record h { lines = h.lines ++ numbered o n (e ∷ []) })
          (next_old o e)
          (next_new n e)
unfolding step header
step-edit hs h o n (keep t) = refl
step-edit hs h o n (delete t) = refl
step-edit hs h o n (insert t) = refl

numbered-cons :
    (o n : ℕ) (e : Edit) (es : List Edit)
    → numbered o n (e ∷ es) ≡ numbered o n (e ∷ []) ++ numbered (next_old o e) (next_new n e) es
numbered-cons o n (keep t) es = refl
numbered-cons o n (delete t) es = refl
numbered-cons o n (insert t) es = refl

length-old_cons :
    (o : ℕ) (e : Edit) (es : List Edit)
    → next_old o e + length (old_file es) ≡ o + length (old_file (e ∷ es))
length-old_cons o (keep t) es = omega arith
length-old_cons o (delete t) es = omega arith
length-old_cons o (insert t) es = refl

length-new_cons :
    (n : ℕ) (e : Edit) (es : List Edit)
    → next_new n e + length (new_file es) ≡ n + length (new_file (e ∷ es))
length-new_cons n (keep t) es = omega arith
length-new_cons n (delete t) es = refl
length-new_cons n (insert t) es = omega arith

parse_lines-cons :
    (s : ParseState) (l : Text) (ls : List Text)
    → parse_lines s (l ∷ ls) ≡ parse_lines (step s l) ls
unfolding parse_lines
parse_lines-cons s l ls = refl

parse_lines-nil : (s : ParseState) → parse_lines s [] ≡ s
unfolding parse_lines
parse_lines-nil s = refl

-- The body of a hunk is read line by line into its numbered lines.
parse_lines-edits :
    (hs : List DiffHunk) (h : DiffHunk) (o n : ℕ) (es : List Edit) (rest : List Text)
    → parse_lines (inside hs h o n) (map render_edit es ++ rest)
      ≡ parse_lines
          (inside hs
            (record h { lines = h.lines ++ numbered o n es })
            (o + length (old_file es))
            (n + length (new_file es)))
          rest
parse_lines-edits hs h o n [] rest = rw (append-nil, add-zero o, add-zero n)
parse_lines-edits hs h o n (e ∷ es) rest = rw (
  parse_lines-cons (inside hs h o n) (render_edit e) (map render_edit es ++ rest),
  step-edit hs h o n e,
  parse_lines-edits hs (record h { lines = h.lines ++ numbered o n (e ∷ []) }) (next_old o e)
      (next_new n e) es rest,
  numbered-cons o n e es,
  append_assoc,
  length-old_cons o e es,
  length-new_cons n e es,
)

-- A side without lines numbers none.
numbered_old_irrelevant :
    (o o' n : ℕ) (es : List Edit) → length (old_file es) ≡ 0 → numbered o n es ≡ numbered o' n es
numbered_old_irrelevant o o' n [] h = refl
numbered_old_irrelevant o o' n (keep t ∷ es) h = absurd (omega arith)
numbered_old_irrelevant o o' n (delete t ∷ es) h = absurd (omega arith)
numbered_old_irrelevant o o' n (insert t ∷ es) h = rw (numbered_old_irrelevant o o' (suc n) es h)

numbered_new_irrelevant :
    (o n n' : ℕ) (es : List Edit) → length (new_file es) ≡ 0 → numbered o n es ≡ numbered o n' es
numbered_new_irrelevant o n n' [] h = refl
numbered_new_irrelevant o n n' (keep t ∷ es) h = absurd (omega arith)
numbered_new_irrelevant o n n' (delete t ∷ es) h = rw (numbered_new_irrelevant (suc o) n n' es h)
numbered_new_irrelevant o n n' (insert t ∷ es) h = absurd (omega arith)

numbered-start_of :
    (o n : ℕ) (es : List Edit)
    → numbered (start_of (length (old_file es)) o) (start_of (length (new_file es)) n) es
      ≡ numbered o n es
numbered-start_of o n es = old ∙ new
  where
    old :
        numbered (start_of (length (old_file es)) o) (start_of (length (new_file es)) n) es
        ≡ numbered o (start_of (length (new_file es)) n) es
    old = elim (Bool-cases (nat_eq (length (old_file es)) 0)) [
      | inl e ↦ numbered_old_irrelevant _ _ _ es (ground arith)
      | inr e ↦ rw e
    ]

    new : numbered o (start_of (length (new_file es)) n) es ≡ numbered o n es
    new = elim (Bool-cases (nat_eq (length (new_file es)) 0)) [
      | inl e ↦ numbered_new_irrelevant _ _ _ es (ground arith)
      | inr e ↦ rw e
    ]

abbrev pub hunks_in : ParseState → List DiffHunk
hunks_in s = closed s.hunks s.current

-- The hunk that a header opens.
opened : ℕ → ℕ → ℕ → DiffHunk
opened o oc n = record { old_start = o; old_count = oc; new_start = n; lines = [] }

step-header :
    (s : ParseState) (o oc n nc : ℕ)
    → step s (render_header o oc n nc) ≡ inside (hunks_in s) (opened o oc n) o n
unfolding step opened
step-header s o oc n nc = rw (header-render_header o oc n nc)

pub parse_lines-render_lines :
    (s : ParseState) (o n : ℕ) (cs : List Change)
    → hunks_in (parse_lines s (render_lines o n cs)) ≡ hunks_in s ++ hunks_of o n cs
unfolding opened
parse_lines-render_lines s o n [] = rw (parse_lines-nil s, append-nil)
parse_lines-render_lines s o n (c ∷ cs) =
    let o' = o + length c.gap in
    let n' = n + length c.gap in
    let olds = length (old_file c.edits) in
    let news = length (new_file c.edits) in
    let so = start_of olds o' in
    let sn = start_of news n' in
    let first = opened so olds sn in
    let s' = inside (hunks_in s) (hunk_of o' n' c.edits) (so + olds) (sn + news) in
    rw
      (
        parse_lines-cons s _ (map render_edit c.edits ++ render_lines (o' + olds) (n' + news) cs),
        step-header s so olds sn news,
        parse_lines-edits (hunks_in s) first so sn c.edits _,
        numbered-start_of o' n' c.edits,
      )
      (parse_lines-render_lines s' (o' + olds) (n' + news) cs ∙ append_assoc (hunks_in s) _ _)
