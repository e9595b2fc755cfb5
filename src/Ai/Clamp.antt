-- ===== src/Ai/Clamp.antt =====
-- src/modules/ai/scan/report-review-clamp.ts: overlong texts of a model's answer are cut. `is_space`
-- is `\s`; the share of the length that a cut keeps is compared exactly.
use critiq_be.Prelude.{
  ℕ, suc, ◌+◌, ◌-◌, ◌*◌, Bool, false, Option, none, some, List, [], ◌∷◌, ◌++◌, Text, nat_eq, ltb,
  leb, codes, length, take, get_elem?, starts_with, max, if◌then◌else◌,
}
use mathlib.Core.List.{reverse}
use critiq_be.Similarity.{trim_start}
use critiq_be.Diff.Render.{decimal}
use critiq_be.Ai.Json.{
  Json, string, array, object, Items, nil, cons, Fields, get_field, set_field, count_items,
  take_items,
}

abbrev pub ellipsis : Text
ellipsis = 8230 ∷ []

-- `Math.max` of positions, of which none is -1.
abbrev pub later_of : Option ℕ → Option ℕ → Option ℕ
later_of none b = b
later_of (some a) none = some a
later_of (some a) (some b) = some (max a b)

abbrev pub behind : Option ℕ → Option ℕ
behind none = none
behind (some i) = some (suc i)

-- String.prototype.lastIndexOf.
unfoldable pub last_index_of : (pattern text : Text) → Option ℕ
unfolding starts_with
last_index_of pattern [] = if starts_with pattern [] then some 0 else none
last_index_of pattern (c ∷ text) =
    let later = last_index_of pattern text in
    elim later [
      | some i ↦ some (suc i)
      | none ↦ if starts_with pattern (c ∷ text) then some 0 else none
    ]

-- `.search(/\s\S*$/)`: the last white space.
unfoldable pub last_space : (ℕ → Bool) → Text → Option ℕ
last_space is_space [] = none
last_space is_space (c ∷ text) =
    let later = last_space is_space text in
    elim later [ some i ↦ some (suc i) | none ↦ if is_space c then some 0 else none ]

unfoldable pub sentence_end : (head : Text) → Option ℕ
unfolding last_index_of
sentence_end head =
    later_of (last_index_of (codes ". ") head)
      (later_of (last_index_of (46 ∷ 10 ∷ []) head) (last_index_of (10 ∷ []) head))

abbrev pub is_stop : Option ℕ → Bool
is_stop none = false
is_stop (some c) = nat_eq c 46

-- `sentenceEnd >= room * SENTENCE_CUT_MIN_SHARE`
abbrev pub keeps_enough : (room : ℕ) → Option ℕ → Bool
keeps_enough room none = false
keeps_enough room (some i) = leb (room * 7) (i * 10)

abbrev pub cut_at_sentence : (head : Text) → Option ℕ → Text
cut_at_sentence head none = head
cut_at_sentence head (some i) = take (if is_stop (get_elem? head i) then i + 1 else i) head

abbrev pub cut_at_word : (head : Text) → Option ℕ → Text
cut_at_word head none = head
cut_at_word head (some i) = if ltb 0 i then take i head else head

unfoldable pub trim_end : (ℕ → Bool) → Text → Text
unfolding trim_start
trim_end is_space s = reverse (trim_start is_space (reverse s))

unfoldable pub cut_text : (ℕ → Bool) → (room : ℕ) → (head : Text) → Text
unfolding sentence_end last_space
cut_text is_space room head =
    if keeps_enough room (sentence_end head)
    then cut_at_sentence head (sentence_end head)
    else cut_at_word head (last_space is_space head)

unfoldable pub truncate_text : (ℕ → Bool) → Text → (max_length : ℕ) → Text
unfolding cut_text trim_end
truncate_text is_space text max_length =
    if leb (length text) max_length
    then text
    else trim_end is_space (cut_text is_space (max_length - 1) (take (max_length - 1) text))
      ++ ellipsis

abbrev pub summary_limit : ℕ
summary_limit = 1500

abbrev pub findings_limit : ℕ
findings_limit = 25

abbrev pub title_limit : ℕ
title_limit = 80

abbrev pub message_limit : ℕ
message_limit = 600

-- The object and the paths of what was shortened.
abbrev pub Clamped : Type 0
Clamped = Fields × List Text

abbrev pub clamp_value :
    (ℕ → Bool) → (key path : Text) → (limit : ℕ) → Clamped → Option Json → Clamped
clamp_value is_space key path limit (fs, clamped) (some (string text)) =
    if ltb limit (length text)
    then (set_field key (string (truncate_text is_space text limit)) fs, clamped ++ path ∷ [])
    else (fs, clamped)
clamp_value is_space key path limit (fs, clamped) value = (fs, clamped)

unfoldable pub clamp_field : (ℕ → Bool) → (key path : Text) → (limit : ℕ) → Clamped → Clamped
unfolding truncate_text get_field set_field
clamp_field is_space key path limit (fs, clamped) =
    clamp_value is_space key path limit (fs, clamped) (get_field key fs)

abbrev pub finding_path : (index : ℕ) → (key : Text) → Text
finding_path index key = codes "findings[" ++ (decimal index ++ (codes "]." ++ key))

unfoldable pub clamp_finding : (ℕ → Bool) → (index : ℕ) → List Text → Json → Json × List Text
unfolding clamp_field
clamp_finding is_space index clamped (object fs) =
    let first =
      clamp_field is_space (codes "title") (finding_path index (codes "title")) title_limit
        (fs, clamped) in
    let (fs', clamped') =
      clamp_field is_space (codes "message") (finding_path index (codes "message")) message_limit
        first in
    (object fs', clamped')
clamp_finding is_space index clamped value = (value, clamped)

unfoldable pub clamp_findings : (ℕ → Bool) → (index : ℕ) → List Text → Items → Items × List Text
unfolding clamp_finding
clamp_findings is_space index clamped nil = (nil, clamped)
clamp_findings is_space index clamped (cons x xs) =
    let (x', clamped') = clamp_finding is_space index clamped x in
    let (xs', clamped'') = clamp_findings is_space (suc index) clamped' xs in
    (cons x' xs', clamped'')

abbrev pub with_findings : (ℕ → Bool) → Clamped → Option Json → Clamped
with_findings is_space (fs, clamped) (some (array xs)) =
    let short = ltb findings_limit (count_items xs) in
    let (xs', clamped') =
      clamp_findings is_space 0 (if short then clamped ++ codes "findings" ∷ [] else clamped)
        (if short then take_items findings_limit xs else xs) in
    (set_field (codes "findings") (array xs') fs, clamped')
with_findings is_space (fs, clamped) value = (fs, clamped)

unfoldable pub clamp_report_review : (ℕ → Bool) → Json → Json × List Text
unfolding clamp_findings clamp_field take_items count_items
clamp_report_review is_space (object fs) =
    let (fs', clamped) =
      clamp_field is_space (codes "summary") (codes "summary") summary_limit (fs, []) in
    let (fs'', clamped') =
      with_findings is_space (fs', clamped) (get_field (codes "findings") fs') in
    (object fs'', clamped')
clamp_report_review is_space value = (value, [])
