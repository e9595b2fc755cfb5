-- ===== src/Lifecycle/Carrying.antt =====
-- What `carryForward` of src/queue/lifecycle/carry-forward.ts promises: no finding is lost, and one
-- that persists still points at the text that it was reported on.
use mathlib.Core.Option
use native.Mathlib.Nat.{suc-add}
use critiq_be.Prelude.{
  ℕ, suc, ◌+◌, ◌≤◌, ◌<◌, ◌≡◌, ◌≢◌, refl, sym, ap, ◌∙◌, Bool, Option, none, some, List, [], ◌∷◌,
  Text, arith, countb, countb-append, countb-cons, length, get_elem?, map_get, ℤ, pos, Option-cases,
  inl, inr,
}
use critiq_be.Diff.LineMapping.{LineRange}
use critiq_be.Diff.Script.{Change, old_file, new_file, flatten, hunks_of, track}
use critiq_be.Diff.Tracking.{map_old_line-eq-track}
use critiq_be.Diff.Content.{map_old_line-get_elem?, RangeResult, map_line_through_hunks_outcome}
use critiq_be.Diff.Render.{render}
use critiq_be.Diff.RoundTrip.{HasLines, parse_patch-render}
use critiq_be.Findings.{StoredFinding}
use critiq_be.Lifecycle.Carry.{
  FileStatus, removed, CarryFile, Carried, CarryResult, through_status, add_carried, through_patch,
  moved, carry_one, by_old_path, carry_from, carry_forward,
}

-- Whatever way a finding goes, it stays the finding.
abbrev finding_or : StoredFinding → Option Carried → StoredFinding
finding_or f none = f
finding_or f (some c) = c.finding

moved-finding :
    (f : StoredFinding) (path : Text) (r : Option LineRange) → finding_or f (moved f path r) ≡ f
moved-finding f path none = refl
moved-finding f path (some r) = refl

through_patch-finding :
    (f : StoredFinding) (path : Text) (patch : Option Text)
    → finding_or f (through_patch f path patch) ≡ f
through_patch-finding f path none = refl
through_patch-finding f path (some patch) = moved-finding f path _

through_status-finding :
    (f : StoredFinding) (s : FileStatus) (path : Text) (patch : Option Text)
    → finding_or f (through_status f s path patch) ≡ f
through_status-finding f removed path patch = refl
through_status-finding f _ path patch = through_patch-finding f path patch

carry_one-finding :
    (files : List (Text × CarryFile)) (f : StoredFinding) → finding_or f (carry_one files f) ≡ f
unfolding carry_one
carry_one-finding files f = elim (Option-cases (map_get f.file_path files)) [
  | inl e ↦ rw e
  | inr (file, e) ↦ rw e (through_status-finding f file.status file.path file.patch)
]

add_carried-countb :
    (q : StoredFinding → Bool) (f : StoredFinding) (o : Option Carried) (r : CarryResult)
    → finding_or f o ≡ f
    → countb (λ c. q c.finding) (add_carried f o r).persisted
        + countb q (add_carried f o r).resolved
      ≡ countb (λ c. q c.finding) r.persisted + countb q r.resolved + countb q (f ∷ [])
unfolding countb
add_carried-countb q f none r h = omega (arith, countb-append q r.resolved (f ∷ []))
add_carried-countb q f (some c) r h =
    let same : q c.finding ≡ q f = ap q h in
    ground (arith, countb-append (λ x. q x.finding) r.persisted (c ∷ []))

carry_from-countb :
    (q : StoredFinding → Bool) (files : List (Text × CarryFile)) (r : CarryResult)
    (fs : List StoredFinding)
    → countb (λ c. q c.finding) (carry_from files r fs).persisted
        + countb q (carry_from files r fs).resolved
      ≡ countb (λ c. q c.finding) r.persisted + countb q r.resolved + countb q fs
unfolding carry_from countb
carry_from-countb q files r [] = omega arith
carry_from-countb q files r (f ∷ fs) = omega (
  arith,
  carry_from-countb q files (add_carried f (carry_one files f) r) fs,
  add_carried-countb q f (carry_one files f) r (carry_one-finding files f),
  countb-cons q f fs,
)

-- `carryForward` loses no finding and takes none twice: of the findings that pass any test, each one
-- either persists or is resolved.
pub carry_forward-countb :
    (q : StoredFinding → Bool) (fs : List StoredFinding) (files : List CarryFile)
    → countb (λ c. q c.finding) (carry_forward fs files).persisted
        + countb q (carry_forward fs files).resolved
      ≡ countb q fs
unfolding carry_forward countb
carry_forward-countb q fs files = omega (
  arith,
  carry_from-countb q (by_old_path [] files) (record { persisted = []; resolved = [] }) fs,
)

-- An old line and a new line hold the same text.
abbrev pub SameText : List Change → List Text → ℕ → ℤ → Type 0
SameText cs rest k m =
    (j : ℕ) × (m ≡ pos (suc j))
    × (get_elem? (new_file (flatten cs rest)) j ≡ get_elem? (old_file (flatten cs rest)) k)

-- A finding on the old lines of indices `a` to `a + k` goes through the diff of a script.
abbrev pub CarryOutcome : List Change → List Text → ℕ → ℕ → Text → Option Carried → Type 0
CarryOutcome cs rest a k path none = (i : ℕ) × (i ≤ k) × (track 1 (flatten cs rest) (a + i) ≡ none)
CarryOutcome cs rest a k path (some c) =
    (c.file_path ≡ path)
    × SameText cs rest a c.line_start
    × SameText cs rest (a + k) c.line_end
    × ((i : ℕ) → i ≤ k → (m : ℤ) × SameText cs rest (a + i) m)

Option-map-none : (o : Option ℕ) → Option.map pos o ≡ none → o ≡ none
Option-map-none none e = refl
Option-map-none (some n) e = cc

moved_outcome :
    (cs : List Change) (rest : List Text) (a k : ℕ) (f : StoredFinding) (path : Text)
    (r : Option LineRange)
    → a + k < length (old_file (flatten cs rest))
    → RangeResult (hunks_of 1 1 cs) (suc a) k r
    → CarryOutcome cs rest a k path (moved f path r)
moved_outcome cs rest a k f path none h (i, le, gone) =
    (i, le, Option-map-none _ (sym (map_old_line-eq-track cs rest (a + i)) ∙ rw (← suc-add) gone))
moved_outcome cs rest a k f path (some r) h (first, last, each) = (
  refl,
  map_old_line-get_elem? cs rest a r.start (omega arith) first,
  map_old_line-get_elem? cs rest (a + k) r.end h (rw (← suc-add) last),
  λ i le.
      let (m, at) = each i le in
      (m, map_old_line-get_elem? cs rest (a + i) m (omega arith) (rw (← suc-add) at)),
)

-- A finding on a file that an incremental diff changes. Where the patch is the diff of an edit script
-- whose lines hold no line break, and the finding covers the old lines of indices `a` to `a + k`, a
-- finding that persists is moved to the file's path, its first and last line have there the text
-- that they had, and every line between is still in the file; one that is resolved has a line that
-- the script deletes.
pub carry_one-render :
    (files : List (Text × CarryFile)) (f : StoredFinding) (file : CarryFile) (cs : List Change)
    (rest : List Text) (a k : ℕ)
    → map_get f.file_path files ≡ some file
    → file.status ≢ removed
    → file.patch ≡ some (render cs)
    → HasLines cs
    → f.line_start ≡ pos (suc a)
    → f.line_end ≡ pos (suc a + k)
    → a + k < length (old_file (flatten cs rest))
    → CarryOutcome cs rest a k file.path (carry_one files f)
unfolding carry_one
carry_one-render files f file cs rest a k found alive patch lines start end inside =
    rw found (go file.status file.patch alive patch)
  where
    go :
        (s : FileStatus) (p : Option Text)
        → s ≢ removed
        → p ≡ some (render cs)
        → CarryOutcome cs rest a k file.path (through_status f s file.path p)
    go removed p ne e = absurd (ne refl)
    go _ p ne e =
        rw (e, parse_patch-render cs lines)
          (moved_outcome cs rest a k f file.path _ inside
            (rw (start, end) (map_line_through_hunks_outcome (hunks_of 1 1 cs) (suc a) k)))
