-- ===== src/Diff/Render.antt =====
-- The text of a unified diff, written from an edit script: what a provider sends as a patch.
use mathlib.Core.List.{map}
use critiq_be.Prelude.{
  ℕ, zero, suc, ◌+◌, ◌/◌, ◌%◌, List, [], ◌∷◌, ◌++◌, Text, length, ltb, if◌then◌else◌,
}
use critiq_be.Diff.Script.{Edit, keep, delete, insert, Change, old_file, new_file, start_of}

-- The decimal digits of a number; any fuel above the number is enough.
unfoldable pub decimal_from : ℕ → ℕ → Text
decimal_from zero n = []
decimal_from (suc fuel) n =
    let higher = decimal_from fuel (n / 10) in
    if ltb n 10 then (48 + n) ∷ [] else higher ++ (48 + n % 10) ∷ []

unfoldable pub decimal : ℕ → Text
unfolding decimal_from
decimal n = decimal_from (suc n) n

abbrev pub render_edit : Edit → Text
render_edit (keep t) = b' ' ∷ t
render_edit (delete t) = b'-' ∷ t
render_edit (insert t) = b'+' ∷ t

abbrev pub render_header : ℕ → ℕ → ℕ → ℕ → Text
render_header old_start old_count new_start new_count =
    b'@'
    ∷ b'@'
    ∷ b' '
    ∷ b'-'
    ∷ (decimal old_start
        ++ (b','
            ∷ (decimal old_count
                ++ (b' '
                    ∷ b'+'
                    ∷ (decimal new_start
                        ++ (b',' ∷ (decimal new_count ++ (b' ' ∷ b'@' ∷ b'@' ∷ []))))))))

-- The lines of a script's hunks, from the next old and new line.
abbrev pub render_lines : ℕ → ℕ → List Change → List Text
render_lines o n [] = []
render_lines o n (c ∷ cs) =
    let o' = o + length c.gap in
    let n' = n + length c.gap in
    let olds = length (old_file c.edits) in
    let news = length (new_file c.edits) in
    render_header (start_of olds o') olds (start_of news n') news
    ∷ (map render_edit c.edits ++ render_lines (o' + olds) (n' + news) cs)

abbrev pub join_lines : List Text → Text
join_lines [] = []
join_lines (l ∷ []) = l
join_lines (l ∷ ls) = l ++ 10 ∷ join_lines ls

abbrev pub render : List Change → Text
render cs = join_lines (render_lines 1 1 cs)
