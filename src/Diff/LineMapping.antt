-- ===== src/Diff/LineMapping.antt =====
-- src/queue/lifecycle/line-mapping.ts: where an old line ends up after a diff.
-- A line number is an integer, since the running offset may be negative.
use mathlib.Core.Option
use critiq_be.Prelude.{
  ℕ, zero, suc, ◌+◌, ◌-◌, Bool, true, false, Option, none, some, List, [], ◌∷◌, ℤ, pos, pos_part,
  neg_part, ◌+ℤ◌, ◌-ℤ◌, ltb_ℤ, leb_ℤ, eq_ℤ, nat_eq, leb, countb, if◌then◌else◌,
}
use critiq_be.Diff.Parser.{LineType, add, del, context, DiffLine, DiffHunk}

abbrev pub is_add : LineType → Bool
is_add add = true
is_add _ = false

abbrev pub is_del : LineType → Bool
is_del del = true
is_del _ = false

-- `line.oldLine === oldLine`: null equals no number.
abbrev pub is_at : Option ℕ → ℤ → Bool
is_at none l = false
is_at (some o) l = eq_ℤ (pos o) l

-- The line returned for the first line of the hunk that stands at `l`.
abbrev pub target : LineType → Option ℕ → Option ℤ
target context n = Option.map pos n
target _ n = none

unfoldable pub find_in_hunk : List DiffLine → ℤ → Option ℤ
find_in_hunk [] l = none
find_in_hunk (d ∷ ds) l =
    let rest = find_in_hunk ds l in if is_at d.old_line l then target d.kind d.new_line else rest

-- A pure insertion (`-12,0`) sits after old line 12.
abbrev pub first_old : DiffHunk → ℕ
first_old h = if nat_eq h.old_count 0 then h.old_start + 1 else h.old_start

unfoldable pub added : List DiffLine → ℕ
unfolding countb
added ls = countb (λ d. is_add d.kind) ls

unfoldable pub deleted : List DiffLine → ℕ
unfolding countb
deleted ls = countb (λ d. is_del d.kind) ls

-- The loop of `mapOldLine`, with its offset.
unfoldable pub map_from : ℤ → List DiffHunk → ℤ → Option ℤ
unfolding find_in_hunk added deleted ◌+ℤ◌ ◌-ℤ◌
map_from offset [] l = some (l +ℤ offset)
map_from offset (h ∷ hs) l =
    let rest = map_from (offset +ℤ (pos (added h.lines) -ℤ pos (deleted h.lines))) hs l in
    if ltb_ℤ l (pos (first_old h))
    then some (l +ℤ offset)
    else if leb_ℤ l (pos (first_old h + h.old_count) -ℤ pos 1)
    then find_in_hunk h.lines l
    else rest

unfoldable pub map_old_line : List DiffHunk → ℤ → Option ℤ
unfolding map_from
map_old_line hunks l = map_from (pos 0) hunks l

pub record LineRange : Type 0 where
  pub start : ℤ
  pub end : ℤ

-- `start ??= mapped; end = mapped;`
abbrev pub extend : Option LineRange → ℤ → LineRange
extend none m = record { start = m; end = m }
extend (some r) m = record r { end = m }

-- The rounds of `for (line = oldStart; line <= oldEnd; …)`.
abbrev pub rounds : ℤ → ℤ → ℕ
rounds lo hi =
    let a = pos_part hi + neg_part lo in
    let b = pos_part lo + neg_part hi in if leb b a then suc (a - b) else 0

unfoldable pub map_range : List DiffHunk → ℕ → ℤ → Option LineRange → Option LineRange
map_range hunks zero l acc = acc
map_range hunks (suc k) l acc = elim (map_old_line hunks l) [
  | none ↦ none
  | some m ↦ map_range hunks k (l +ℤ pos 1) (some (extend acc m))
]

unfoldable pub map_line_through_hunks : List DiffHunk → ℤ → ℤ → Option LineRange
unfolding map_range
map_line_through_hunks hunks old_start old_end =
    map_range hunks (rounds old_start old_end) old_start none
