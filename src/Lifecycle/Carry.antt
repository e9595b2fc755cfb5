-- ===== src/Lifecycle/Carry.antt =====
-- src/queue/lifecycle/carry-forward.ts: the base scan's findings through an incremental diff.
use critiq_be.Prelude.{Option, none, some, List, [], ◌∷◌, ◌++◌, Text, ℤ, map_get, map_set}
use critiq_be.Diff.Parser.{parse_patch}
use critiq_be.Diff.LineMapping.{LineRange, map_line_through_hunks}
use critiq_be.Findings.{StoredFinding}

pub data FileStatus : Type 0 where
  added removed modified renamed : FileStatus

pub record CarryFile : Type 0 where
  pub path : Text
  pub previous_path : Option Text
  pub status : FileStatus
  pub patch : Option Text

pub record Carried : Type 0 where
  pub finding : StoredFinding
  pub file_path : Text
  pub line_start : ℤ
  pub line_end : ℤ

pub record CarryResult : Type 0 where
  pub persisted : List Carried
  pub resolved : List StoredFinding

-- `file.status === 'renamed' && file.previousPath ? file.previousPath : file.path`; an empty
-- previous path counts as none.
abbrev pub previous_or : Text → Option Text → Text
previous_or path none = path
previous_or path (some []) = path
previous_or path (some (c ∷ s)) = c ∷ s

abbrev pub old_path_of : FileStatus → Option Text → Text → Text
old_path_of renamed previous path = previous_or path previous
old_path_of _ previous path = path

abbrev pub old_path : CarryFile → Text
old_path f = old_path_of f.status f.previous_path f.path

-- The map that the first loop fills: a later file takes the place of an earlier one.
unfoldable pub by_old_path : List (Text × CarryFile) → List CarryFile → List (Text × CarryFile)
by_old_path m [] = m
by_old_path m (f ∷ fs) = by_old_path (map_set (old_path f) f m) fs

-- Where one finding goes; `none` means that it is resolved.
abbrev pub unmoved : StoredFinding → Text → Carried
unmoved f path = record {
  finding = f;
  file_path = path;
  line_start = f.line_start;
  line_end = f.line_end;
}

abbrev pub moved : StoredFinding → Text → Option LineRange → Option Carried
moved f path none = none
moved f path (some r) =
    some (record { finding = f; file_path = path; line_start = r.start; line_end = r.end })

abbrev pub through_patch : StoredFinding → Text → Option Text → Option Carried
through_patch f path none = some (unmoved f path)
through_patch f path (some patch) =
    moved f path (map_line_through_hunks (parse_patch patch) f.line_start f.line_end)

abbrev pub through_status : StoredFinding → FileStatus → Text → Option Text → Option Carried
through_status f removed path patch = none
through_status f _ path patch = through_patch f path patch

abbrev pub through_file : StoredFinding → Option CarryFile → Option Carried
through_file f none = some (unmoved f f.file_path)
through_file f (some file) = through_status f file.status file.path file.patch

unfoldable pub carry_one : List (Text × CarryFile) → StoredFinding → Option Carried
carry_one files f = through_file f (map_get f.file_path files)

abbrev pub add_carried : StoredFinding → Option Carried → CarryResult → CarryResult
add_carried f none r = record r { resolved = r.resolved ++ f ∷ [] }
add_carried f (some c) r = record r { persisted = r.persisted ++ c ∷ [] }

unfoldable pub carry_from : List (Text × CarryFile) → CarryResult → List StoredFinding → CarryResult
carry_from files r [] = r
carry_from files r (f ∷ fs) = carry_from files (add_carried f (carry_one files f) r) fs

unfoldable pub carry_forward : List StoredFinding → List CarryFile → CarryResult
unfolding by_old_path carry_from
carry_forward findings files =
    carry_from (by_old_path [] files) (record { persisted = []; resolved = [] }) findings
