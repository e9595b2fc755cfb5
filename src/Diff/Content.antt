-- ===== src/Diff/Content.antt =====
-- What src/queue/lifecycle/line-mapping.ts promises of the lines that it carries: their text and
-- their order.
use mathlib.Core.Option
use native.Mathlib.Nat.{add-zero, add-suc, suc-add}
use critiq_be.Prelude.{
  ℕ, zero, suc, ◌+◌, ◌≤◌, ◌<◌, ◌≡◌, refl, sym, ap, ◌∙◌, Option, none, some, List, [], ◌∷◌, Text,
  length, get_elem?, arith, ℤ, pos, ◌<ℤ◌, ◌+ℤ◌, Option-cases, inl, inr,
}
use critiq_be.Diff.Parser.{DiffHunk}
use critiq_be.Diff.LineMapping.{
  map_old_line, LineRange, extend, rounds, map_range, map_line_through_hunks,
}
use critiq_be.Diff.Script.{
  Edit, keep, delete, insert, Change, old_file, new_file, flatten, hunks_of, track,
}
use critiq_be.Diff.Tracking.{map_old_line-eq-track}

-- What the script moves has the same text in both files.
track-get_elem? :
    (n : ℕ) (es : List Edit) (k m : ℕ)
    → k < length (old_file es)
    → track n es k ≡ some m
    → (j : ℕ) × (m ≡ n + j) × (get_elem? (new_file es) j ≡ get_elem? (old_file es) k)
track-get_elem? n [] k m h e = elim h [ ]
track-get_elem? n (insert t ∷ es) k m h e =
    let (j, eq, same) = track-get_elem? (suc n) es k m h e in (suc j, omega arith, same)
track-get_elem? n (keep t ∷ es) zero m h e = (0, ground arith, refl)
track-get_elem? n (keep t ∷ es) (suc k) m h e =
    let (j, eq, same) = track-get_elem? (suc n) es k m (omega arith) e in (suc j, omega arith, same)
track-get_elem? n (delete t ∷ es) zero m h e = cc
track-get_elem? n (delete t ∷ es) (suc k) m h e = track-get_elem? n es k m (omega arith) e

-- A line that `mapOldLine` carries through a diff is byte-identical in the new file: where the old
-- line at index `k` is carried to `m`, then `m` is the number of a new line with the same text.
pub map_old_line-get_elem? :
    (cs : List Change) (rest : List Text) (k : ℕ) (m : ℤ)
    → k < length (old_file (flatten cs rest))
    → map_old_line (hunks_of 1 1 cs) (pos (suc k)) ≡ some m
    → (j : ℕ) × (m ≡ pos (suc j))
      × (get_elem? (new_file (flatten cs rest)) j ≡ get_elem? (old_file (flatten cs rest)) k)
map_old_line-get_elem? cs rest k m h e =
    let (n, found, same) =
      (Option.map-eq-some_iff _ _).0 (sym (map_old_line-eq-track cs rest k) ∙ e) in
    let (j, eq, text) = track-get_elem? 1 (flatten cs rest) k n h found in
    (j, sym same ∙ ap pos (eq ∙ omega arith), text)

le-track : (n : ℕ) (es : List Edit) (k m : ℕ) → track n es k ≡ some m → n ≤ m
le-track n [] k m e = ground arith
le-track n (insert t ∷ es) k m e = omega (arith, le-track (suc n) es k m e)
le-track n (keep t ∷ es) zero m e = ground arith
le-track n (keep t ∷ es) (suc k) m e = omega (arith, le-track (suc n) es k m e)
le-track n (delete t ∷ es) zero m e = cc
le-track n (delete t ∷ es) (suc k) m e = le-track n es k m e

track_mono :
    (n : ℕ) (es : List Edit) (k l m m' : ℕ)
    → k < l
    → track n es k ≡ some m
    → track n es l ≡ some m'
    → m < m'
track_mono n [] k l m m' h e e' = ground arith
track_mono n (insert t ∷ es) k l m m' h e e' = omega (arith, track_mono (suc n) es k l m m' h e e')
track_mono n (keep t ∷ es) zero zero m m' h e e' = absurd (omega arith)
track_mono n (keep t ∷ es) zero (suc l) m m' h e e' = ground (arith, le-track (suc n) es l m' e')
track_mono n (keep t ∷ es) (suc k) zero m m' h e e' = absurd (omega arith)
track_mono n (keep t ∷ es) (suc k) (suc l) m m' h e e' =
    omega (arith, track_mono (suc n) es k l m m' (omega arith) e e')
track_mono n (delete t ∷ es) zero l m m' h e e' = cc
track_mono n (delete t ∷ es) (suc k) zero m m' h e e' = cc
track_mono n (delete t ∷ es) (suc k) (suc l) m m' h e e' =
    track_mono n es k l m m' (omega arith) e e'

pos_mono : (n n' : ℕ) (m m' : ℤ) → pos n ≡ m → pos n' ≡ m' → n < n' → m <ℤ m'
pos_mono n n' m m' e e' h = ground arith

-- Lines that are carried through a diff keep their order and do not collide.
pub map_old_line_mono :
    (cs : List Change) (rest : List Text) (k l : ℕ) (m m' : ℤ)
    → k < l
    → map_old_line (hunks_of 1 1 cs) (pos (suc k)) ≡ some m
    → map_old_line (hunks_of 1 1 cs) (pos (suc l)) ≡ some m'
    → m <ℤ m'
map_old_line_mono cs rest k l m m' h e e' =
    let (n, found, same) =
      (Option.map-eq-some_iff _ _).0 (sym (map_old_line-eq-track cs rest k) ∙ e) in
    let (n', found', same') =
      (Option.map-eq-some_iff _ _).0 (sym (map_old_line-eq-track cs rest l) ∙ e') in
    pos_mono n n' m m' same same' (track_mono 1 (flatten cs rest) k l n n' h found found')

-- The old lines `a` to `a + k` all survive a diff, the first one at `r.start` and the last one at
-- `r.end`.
abbrev pub Survives : List DiffHunk → ℕ → ℕ → LineRange → Type 0
Survives hunks a k r =
    (map_old_line hunks (pos a) ≡ some r.start)
    × (map_old_line hunks (pos (a + k)) ≡ some r.end)
    × ((i : ℕ) → i ≤ k → (m : ℤ) × (map_old_line hunks (pos (a + i)) ≡ some m))

-- One of them does not.
abbrev pub IsCut : List DiffHunk → ℕ → ℕ → Type 0
IsCut hunks a k = (i : ℕ) × (i ≤ k) × (map_old_line hunks (pos (a + i)) ≡ none)

abbrev pub RangeOutcome : List DiffHunk → ℕ → ℕ → (ℤ → ℤ) → Option LineRange → Type 0
RangeOutcome hunks a k start_of none = IsCut hunks a k
RangeOutcome hunks a k start_of (some r) =
    (first : ℤ) × (map_old_line hunks (pos a) ≡ some first)
    × (r.start ≡ start_of first)
    × (map_old_line hunks (pos (a + k)) ≡ some r.end)
    × ((i : ℕ) → i ≤ k → (m : ℤ) × (map_old_line hunks (pos (a + i)) ≡ some m))

pos-suc : (a : ℕ) → pos a +ℤ pos 1 ≡ pos (suc a)
unfolding ◌+ℤ◌
pos-suc a = ground arith

extend_end : (acc : Option LineRange) (m : ℤ) → m ≡ (extend acc m).end
extend_end none m = refl
extend_end (some r) m = refl

-- One more line in front of a range.
RangeOutcome-suc :
    (hunks : List DiffHunk) (a k : ℕ) (start_of : ℤ → ℤ) (s m : ℤ) (o : Option LineRange)
    → map_old_line hunks (pos a) ≡ some m
    → s ≡ start_of m
    → RangeOutcome hunks (suc a) k (λ _. s) o
    → RangeOutcome hunks a (suc k) start_of o
RangeOutcome-suc hunks a k start_of s m none e same (i, le, gone) =
    (suc i, omega arith, rw (add-suc, ← suc-add) gone)
RangeOutcome-suc hunks a k start_of s m (some r) e same (first, _, start, last, each) =
    (m, e, start ∙ same, rw (add-suc, ← suc-add) last, every)
  where
    every : (i : ℕ) → i ≤ suc k → (n : ℤ) × (map_old_line hunks (pos (a + i)) ≡ some n)
    every zero h = (m, rw add-zero e)
    every (suc i) h = let (n, at) = each i (omega arith) in (n, rw (add-suc, ← suc-add) at)

only :
    (hunks : List DiffHunk) (a i : ℕ) (m : ℤ)
    → i ≤ 0
    → map_old_line hunks (pos a) ≡ some m
    → map_old_line hunks (pos (a + i)) ≡ some m
only hunks a zero m h e = rw add-zero e
only hunks a (suc i) m h e = absurd (omega arith)

module _ (hunks : List DiffHunk) (k a : ℕ) (acc : Option LineRange) where
  map_range-none : map_old_line hunks (pos a) ≡ none → map_range hunks (suc k) (pos a) acc ≡ none
  unfolding map_range
  map_range-none e = rw (e, map_range)

  map_range-some :
      (m : ℤ)
      → map_old_line hunks (pos a) ≡ some m
      → map_range hunks (suc k) (pos a) acc ≡ map_range hunks k (pos (suc a)) (some (extend acc m))
  unfolding map_range
  map_range-some m e =
      rw (e, map_range) (ap (λ l. map_range hunks k l (some (extend acc m))) (pos-suc a))

map_range_outcome :
    (hunks : List DiffHunk) (k a : ℕ) (acc : Option LineRange)
    → RangeOutcome hunks a k (λ m. (extend acc m).start) (map_range hunks (suc k) (pos a) acc)
map_range_outcome hunks zero a acc = elim (Option-cases (map_old_line hunks (pos a))) [
  | inl e ↦ rw (map_range-none hunks 0 a acc e) (0, omega arith, rw add-zero e)
  | inr (m, e) ↦ rw (map_range-some hunks 0 a acc m e) (
      unfold map_range in
      (m, e, refl, rw (add-zero, e) (ap some (extend_end acc m)), λ i h. (m, only hunks a i m h e)))
]
map_range_outcome hunks (suc k) a acc = elim (Option-cases (map_old_line hunks (pos a))) [
  | inl e ↦ rw (map_range-none hunks (suc k) a acc e) (0, omega arith, rw add-zero e)
  | inr (m, e) ↦ rw (map_range-some hunks (suc k) a acc m e) (
      RangeOutcome-suc hunks a k _ _ m _ e refl
        (map_range_outcome hunks k (suc a) (some (extend acc m))))
]

abbrev pub RangeResult : List DiffHunk → ℕ → ℕ → Option LineRange → Type 0
RangeResult hunks a k none = IsCut hunks a k
RangeResult hunks a k (some r) = Survives hunks a k r

RangeResult-of :
    (hunks : List DiffHunk) (a k : ℕ) (o : Option LineRange)
    → RangeOutcome hunks a k (λ m. m) o
    → RangeResult hunks a k o
RangeResult-of hunks a k none h = h
RangeResult-of hunks a k (some r) (first, e, start, last, each) = (rw start e, last, each)

-- A finding's range, the old lines `a` to `a + k`, is carried exactly when every line of it
-- survives, and then from where the first one goes to where the last one goes.
pub map_line_through_hunks_outcome :
    (hunks : List DiffHunk) (a k : ℕ)
    → RangeResult hunks a k (map_line_through_hunks hunks (pos a) (pos (a + k)))
unfolding map_line_through_hunks
map_line_through_hunks_outcome hunks a k =
    let e : rounds (pos a) (pos (a + k)) ≡ suc k = ground arith in
    rw e (RangeResult-of hunks a k _ (map_range_outcome hunks k a none))
