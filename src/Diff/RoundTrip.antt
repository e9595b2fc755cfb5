-- ===== src/Diff/RoundTrip.antt =====
-- `parsePatch` of src/queue/diff/diff-parser.ts reads the hunks of an edit script back from its
-- diff.
use mathlib.Core.List.{map}
use critiq_be.Prelude.{
  false, nat_eq, ℕ, ◌+◌, ◌≡◌, ◌≢◌, refl, ap, ◌∙◌, List, [], ◌∷◌, ◌++◌, Text, All, length, arith,
}
use critiq_be.Diff.Parser.{split_lines, header, body_line, step, initial, parse_lines, parse_patch}
use critiq_be.Diff.Reading.{parse_lines-render_lines}
use critiq_be.Diff.Headers.{IsDigits, decimal-IsDigits}
use critiq_be.Diff.Script.{Edit, keep, delete, insert, Change, old_file, new_file, hunks_of}
use critiq_be.Diff.Render.{decimal, render_edit, render_header, render_lines, join_lines, render}

-- Splitting a patch undoes joining its lines.
abbrev IsLine : Text → Type 0
IsLine t = All (λ c. c ≢ 10) t

split_lines-append : (l s : Text) → IsLine l → split_lines (l ++ 10 ∷ s) ≡ l ∷ split_lines s
unfolding split_lines
split_lines-append [] s h = refl
split_lines-append (c ∷ l) s (ne, h) = rw (split_lines-append l s h) (ground arith)

split_lines-line : (l : Text) → IsLine l → split_lines l ≡ l ∷ []
unfolding split_lines
split_lines-line [] h = refl
split_lines-line (c ∷ l) (ne, h) = rw (split_lines-line l h) (ground arith)

split_lines-join_lines :
    (l : Text) (ls : List Text) → All IsLine (l ∷ ls) → split_lines (join_lines (l ∷ ls)) ≡ l ∷ ls
split_lines-join_lines l [] (h, _) = split_lines-line l h
split_lines-join_lines l (m ∷ ls) (h, hs) =
    split_lines-append l _ h ∙ ap (λ rest. l ∷ rest) (split_lines-join_lines m ls hs)

-- No text of a script holds a line break.
abbrev EditIsLine : Edit → Type 0
EditIsLine (keep t) = IsLine t
EditIsLine (delete t) = IsLine t
EditIsLine (insert t) = IsLine t

abbrev pub HasLines : List Change → Type 0
HasLines cs = All (λ c. All EditIsLine c.edits) cs

IsLine-append : (s t : Text) → IsLine s → IsLine t → IsLine (s ++ t)
IsLine-append [] t h k = k
IsLine-append (c ∷ s) t (ne, h) k = (ne, IsLine-append s t h k)

IsLine-render_edit : (e : Edit) → EditIsLine e → IsLine (render_edit e)
IsLine-render_edit (keep t) h = (omega arith, h)
IsLine-render_edit (delete t) h = (omega arith, h)
IsLine-render_edit (insert t) h = (omega arith, h)

IsLine-edits :
    (es : List Edit) (rest : List Text)
    → All EditIsLine es
    → All IsLine rest
    → All IsLine (map render_edit es ++ rest)
IsLine-edits [] rest h k = k
IsLine-edits (e ∷ es) rest (p, h) k = (IsLine-render_edit e p, IsLine-edits es rest h k)

IsLine-decimal : (n : ℕ) → IsLine (decimal n)
IsLine-decimal n = go (decimal n) (decimal-IsDigits n)
  where
    go : (s : Text) → IsDigits s → IsLine s
    go [] h = tt
    go (c ∷ s) (d, h) = (ground arith, go s h)

not_break : (c : ℕ) → nat_eq c 10 ≡ false → c ≢ 10
not_break c e = ground arith

IsLine-render_header : (o oc n nc : ℕ) → IsLine (render_header o oc n nc)
IsLine-render_header o oc n nc =
    let comma = not_break b',' refl in
    let space = not_break b' ' refl in
    let at = not_break b'@' refl in
    let last = IsLine-append (decimal nc) _ (IsLine-decimal nc) (space, (at, (at, tt))) in
    let new = IsLine-append (decimal n) _ (IsLine-decimal n) (comma, last) in
    let count =
      IsLine-append (decimal oc) _ (IsLine-decimal oc) (space, (not_break b'+' refl, new)) in
    let old = IsLine-append (decimal o) _ (IsLine-decimal o) (comma, count) in
    (at, (at, (space, (not_break b'-' refl, old))))

IsLine-render_lines : (o n : ℕ) (cs : List Change) → HasLines cs → All IsLine (render_lines o n cs)
IsLine-render_lines o n [] h = tt
IsLine-render_lines o n (c ∷ cs) (p, h) =
    let o' = o + length c.gap + length (old_file c.edits) in
    let n' = n + length c.gap + length (new_file c.edits) in
    (IsLine-render_header _ _ _ _, IsLine-edits c.edits _ p (IsLine-render_lines o' n' cs h))

-- `parsePatch` reads the unified diff of an edit script back into the script's hunks, with the
-- line numbers of both files, where no line of the script holds a line break.
pub parse_patch-render :
    (cs : List Change) → HasLines cs → parse_patch (render cs) ≡ hunks_of 1 1 cs
unfolding parse_patch
parse_patch-render [] h = unfold split_lines parse_lines step header body_line in refl
parse_patch-render (c ∷ cs) h =
    rw (split_lines-join_lines _ _ (IsLine-render_lines 1 1 (c ∷ cs) h))
      (parse_lines-render_lines initial 1 1 (c ∷ cs))
