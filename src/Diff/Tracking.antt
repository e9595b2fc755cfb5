-- ===== src/Diff/Tracking.antt =====
-- The line mapping of src/queue/lifecycle/line-mapping.ts follows the edit script of the diff.
use mathlib.Core.Option
use native.Mathlib.Decide.{dec_lt}
use native.Mathlib.Nat.{add-zero, zero-add, add_assoc, add-suc, suc-add}
use critiq_be.Prelude.{
  ℕ, zero, suc, ◌+◌, ◌-◌, ◌≤◌, ◌<◌, ◌≡◌, refl, ap, ◌∙◌, ◌⊎◌, inl, inr, some, List, [], ◌∷◌, ◌++◌,
  Text, length, arith, ℤ, pos, sub_ℕ, ◌+ℤ◌, ◌-ℤ◌, -ℤ_parts,
}
use critiq_be.Diff.Parser.{DiffHunk}
use critiq_be.Diff.LineMapping.{find_in_hunk, added, deleted, first_old, map_from, map_old_line}
use critiq_be.Diff.Script.{
  Edit, keep, delete, insert, Change, old_file, new_file, kept, flatten, numbered, hunk_of,
  hunks_of, track,
}

-- An index lies inside a run of `n` lines, or `j` lines behind it.
split_at : (n k : ℕ) → (k < n) ⊎ ((j : ℕ) × (k ≡ n + j))
split_at n k = elim (dec_lt k n) [ yes h ↦ inl h | no h ↦ inr (k - n, omega arith) ]

-- A line of the untouched run before a hunk moves with the run.
track_gap :
    (n k : ℕ) (gap : List Text) (es : List Edit)
    → k < length gap
    → track n (kept gap es) k ≡ some (n + k)
track_gap n k [] es h = elim h [ ]
track_gap n zero (t ∷ gap) es h = ap some (omega arith)
track_gap n (suc k) (t ∷ gap) es h =
    track_gap (suc n) k gap es (omega arith) ∙ ap some (omega arith)

track_rest : (n k : ℕ) (rest : List Text) → track n (kept rest []) k ≡ some (n + k)
track_rest n k [] = refl
track_rest n zero (t ∷ rest) = ap some (omega arith)
track_rest n (suc k) (t ∷ rest) = track_rest (suc n) k rest ∙ ap some (omega arith)

track_behind_gap :
    (n j : ℕ) (gap : List Text) (es : List Edit)
    → track n (kept gap es) (length gap + j) ≡ track (n + length gap) es j
track_behind_gap n j [] es = rw (zero-add, add-zero)
track_behind_gap n j (t ∷ gap) es =
    rw (suc-add (length gap) j, add-suc n (length gap), ← suc-add n (length gap))
      (track_behind_gap (suc n) j gap es)

find_in_numbered :
    (o n k : ℕ) (es rest : List Edit)
    → k < length (old_file es)
    → find_in_hunk (numbered o n es) (pos (o + k)) ≡ Option.map pos (track n (es ++ rest) k)
unfolding find_in_hunk
find_in_numbered o n k [] rest h = elim h [ ]
find_in_numbered o n k (insert t ∷ es) rest h = find_in_numbered o (suc n) k es rest h
find_in_numbered o n zero (keep t ∷ es) rest h = ground arith
find_in_numbered o n (suc k) (keep t ∷ es) rest h =
    ground (arith, find_in_numbered (suc o) (suc n) k es rest)
find_in_numbered o n zero (delete t ∷ es) rest h = ground arith
find_in_numbered o n (suc k) (delete t ∷ es) rest h =
    ground (arith, find_in_numbered (suc o) n k es rest)

track_behind_edits :
    (n j : ℕ) (es rest : List Edit)
    → track n (es ++ rest) (length (old_file es) + j) ≡ track (n + length (new_file es)) rest j
track_behind_edits n j [] rest = rw (zero-add, add-zero)
track_behind_edits n j (keep t ∷ es) rest =
    let olds = length (old_file es) in
    let news = length (new_file es) in
    rw (suc-add olds j, add-suc n news, ← suc-add n news) (track_behind_edits (suc n) j es rest)
track_behind_edits n j (delete t ∷ es) rest =
    rw (suc-add (length (old_file es)) j) (track_behind_edits n j es rest)
track_behind_edits n j (insert t ∷ es) rest =
    let news = length (new_file es) in
    rw (add-suc n news, ← suc-add n news) (track_behind_edits (suc n) j es rest)

-- A hunk's added and deleted lines make up the difference of its two sides.
added-deleted :
    (o n : ℕ) (es : List Edit)
    → added (numbered o n es) + length (old_file es)
      ≡ deleted (numbered o n es) + length (new_file es)
unfolding added deleted
added-deleted o n [] = omega arith
added-deleted o n (keep t ∷ es) = omega (arith, added-deleted (suc o) (suc n) es)
added-deleted o n (delete t ∷ es) = omega (arith, added-deleted (suc o) n es)
added-deleted o n (insert t ∷ es) = omega (arith, added-deleted o (suc n) es)

-- One round of `mapOldLine`: the line is before the hunk, in it, or behind it.
module _ (offset : ℤ) (h : DiffHunk) (hs : List DiffHunk) (m : ℕ) where
  map_from_before : m < first_old h → map_from offset (h ∷ hs) (pos m) ≡ some (pos m +ℤ offset)
  unfolding map_from
  map_from_before lt = ground arith

  map_from_inside :
      first_old h ≤ m
      → m < first_old h + h.old_count
      → map_from offset (h ∷ hs) (pos m) ≡ find_in_hunk h.lines (pos m)
  unfolding map_from
  map_from_inside le lt = ground (arith, -ℤ_parts (pos (first_old h + h.old_count)) (pos 1))

  map_from_behind :
      first_old h + h.old_count ≤ m
      → map_from offset (h ∷ hs) (pos m)
        ≡ map_from (offset +ℤ (pos (added h.lines) -ℤ pos (deleted h.lines))) hs (pos m)
  unfolding map_from
  map_from_behind le = ground (arith, -ℤ_parts (pos (first_old h + h.old_count)) (pos 1))

first_old-hunk_of : (o n : ℕ) (es : List Edit) → 0 < o → first_old (hunk_of o n es) ≡ o
first_old-hunk_of o n es h = ground arith

shift_pos : (o n k : ℕ) → pos (o + k) +ℤ sub_ℕ n o ≡ pos (n + k)
unfolding ◌+ℤ◌
shift_pos o n k = ground arith

-- The offset behind a hunk is the difference of the next new and old line.
offset_behind :
    (o n g olds news a d : ℕ)
    → a + olds ≡ d + news
    → sub_ℕ n o +ℤ (pos a -ℤ pos d) ≡ sub_ℕ (n + g + news) (o + g + olds)
unfolding ◌+ℤ◌ ◌-ℤ◌
offset_behind o n g olds news a d e = ground arith

-- The loop of `mapOldLine`, from a point where old line `o` meets new line `n`.
map_from-hunks_of :
    (o n k : ℕ) (cs : List Change) (rest : List Text)
    → 0 < o
    → map_from (sub_ℕ n o) (hunks_of o n cs) (pos (o + k))
      ≡ Option.map pos (track n (flatten cs rest) k)
map_from-hunks_of o n k [] rest h =
    rw (track_rest n k rest) (unfold map_from in ap some (shift_pos o n k))
map_from-hunks_of o n k (c ∷ cs) rest h =
    let g = length c.gap in
    let tail = flatten cs rest in
    let offset = sub_ℕ n o in
    let hunk = hunk_of (o + g) (n + g) c.edits in
    let olds = length (old_file c.edits) in
    let news = length (new_file c.edits) in
    let hs = hunks_of (o + g + olds) (n + g + news) cs in
    let start = first_old-hunk_of (o + g) (n + g) c.edits (omega arith) in
    elim (split_at g k) [
      | inl before ↦ rw (
        track_gap n k c.gap (c.edits ++ tail) before,
        map_from_before offset hunk hs (o + k) (omega arith),
        shift_pos o n k,
      )
      | inr (j, e) ↦
          rw (e, track_behind_gap n j c.gap (c.edits ++ tail))
            (elim (split_at olds j) [
              | inl inside ↦
                  rw
                    (
                      map_from_inside offset hunk hs (o + (g + j)) (omega arith) (omega arith),
                      ← add_assoc o g j,
                    )
                    (find_in_numbered (o + g) (n + g) j c.edits tail inside)
              | inr (i, e') ↦
                  let line : o + (g + (olds + i)) ≡ (o + g + olds) + i = omega arith in
                  rw
                    (
                      e',
                      track_behind_edits (n + g) i c.edits tail,
                      map_from_behind offset hunk hs (o + (g + (olds + i))) (omega arith),
                      offset_behind o n g olds news _ _ (added-deleted (o + g) (n + g) c.edits),
                      line,
                    )
                    (map_from-hunks_of (o + g + olds) (n + g + news) i cs rest (omega arith))
            ])
    ]

-- For the diff of any edit script, `mapOldLine` gives each old line (the one at index `k`, whose
-- number is `k + 1`) the number that following the script edit by edit gives it, and null exactly
-- where the script deletes it.
pub map_old_line-eq-track :
    (cs : List Change) (rest : List Text) (k : ℕ)
    → map_old_line (hunks_of 1 1 cs) (pos (suc k)) ≡ Option.map pos (track 1 (flatten cs rest) k)
unfolding map_old_line
map_old_line-eq-track cs rest k =
    let e : suc k ≡ 1 + k = omega arith in rw e (map_from-hunks_of 1 1 k cs rest (omega arith))
