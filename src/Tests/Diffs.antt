-- ===== src/Tests/Diffs.antt =====
-- src/queue/diff/diff-parser.ts and src/queue/lifecycle/line-mapping.ts on a diff of four lines.
use mathlib.Core.Option
use critiq_be.Prelude.{ℕ, suc, ◌≡◌, some, List, [], ◌∷◌, Text, codes, pos, ◌<ℤ◌, get_elem?, arith}
use critiq_be.Diff.Parser.{parse_patch}
use critiq_be.Diff.LineMapping.{map_old_line, map_line_through_hunks}
use critiq_be.Diff.Script.{
  keep, delete, insert, Change, old_file, new_file, flatten, hunks_of, track,
}
use critiq_be.Diff.Render.{render}
use critiq_be.Diff.Tracking.{map_old_line-eq-track}
use critiq_be.Diff.Content.{
  map_old_line-get_elem?, map_old_line_mono, map_line_through_hunks_outcome, RangeResult,
}
use critiq_be.Diff.RoundTrip.{HasLines, parse_patch-render}
use critiq_be.Similarity.{jaro_winkler}
use critiq_be.Similarity.Bounds.{IsShare, jaro_winkler-IsShare}

-- One line kept, one exchanged, behind one untouched line.
abbrev script : List Change
script =
    record {
      gap = codes "a" ∷ [];
      edits = keep (codes "b") ∷ delete (codes "c") ∷ insert (codes "x") ∷ insert (codes "y") ∷ [];
    }
    ∷ []

abbrev tail_lines : List Text
tail_lines = codes "d" ∷ []

script-HasLines : HasLines script
script-HasLines =
    (((omega arith, tt), ((omega arith, tt), ((omega arith, tt), ((omega arith, tt), tt)))), tt)

map_old_line-eq-track_example :
    map_old_line (hunks_of 1 1 script) (pos 4)
    ≡ Option.map pos (track 1 (flatten script tail_lines) 3)
map_old_line-eq-track_example = map_old_line-eq-track script tail_lines 3

carried_last : map_old_line (hunks_of 1 1 script) (pos (suc 3)) ≡ some (pos 5)
carried_last = map_old_line-eq-track script tail_lines 3

carried_first : map_old_line (hunks_of 1 1 script) (pos (suc 1)) ≡ some (pos 2)
carried_first = map_old_line-eq-track script tail_lines 1

map_old_line-get_elem?_example :
    (j : ℕ) × (pos 5 ≡ pos (suc j))
    × (get_elem? (new_file (flatten script tail_lines)) j
        ≡ get_elem? (old_file (flatten script tail_lines)) 3)
map_old_line-get_elem?_example =
    map_old_line-get_elem? script tail_lines 3 (pos 5) (omega arith) carried_last

map_old_line_mono_example : pos 2 <ℤ pos 5
map_old_line_mono_example =
    map_old_line_mono script tail_lines 1 3 (pos 2) (pos 5) (omega arith) carried_first carried_last

map_line_through_hunks_outcome_example :
    RangeResult
      (hunks_of 1 1 script)
      2
      1
      (map_line_through_hunks (hunks_of 1 1 script) (pos 2) (pos 3))
map_line_through_hunks_outcome_example = map_line_through_hunks_outcome (hunks_of 1 1 script) 2 1

parse_patch-render_example : parse_patch (render script) ≡ hunks_of 1 1 script
parse_patch-render_example = parse_patch-render script script-HasLines

jaro_winkler-IsShare_example : IsShare (jaro_winkler (codes "sql query") (codes "sql queries"))
jaro_winkler-IsShare_example = jaro_winkler-IsShare (codes "sql query") (codes "sql queries")
