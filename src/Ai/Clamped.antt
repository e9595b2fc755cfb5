-- ===== src/Ai/Clamped.antt =====
-- `clampReportReview` of src/modules/ai/scan/report-review-clamp.ts on any answer.
use critiq_be.Prelude.{
  ℕ, zero, suc, ◌≤◌, ◌≡◌, refl, ◌∙◌, arith, Bool, false, inl, inr, Option, none, some, List, [],
  ◌∷◌, ◌++◌, Text, text_eq, ltb, codes, length, if◌then◌else◌, Bool-cases,
}
use critiq_be.Ai.Json.{
  Json, null, boolean, number, string, array, object, Items, nil, cons, Fields, get_field,
  count_items, take_items, get_field-set_field, get_field-set_field-other,
}
use critiq_be.Ai.Clamp.{
  Clamped, truncate_text, summary_limit, findings_limit, title_limit, message_limit, finding_path,
  clamp_value, clamp_field, clamp_finding, clamp_findings, with_findings, clamp_report_review,
}
use critiq_be.Ai.Clamping.{truncate_text-le}

abbrev pub IsShort : (limit : ℕ) → Option Json → Type 0
IsShort limit (some (string text)) = length text ≤ limit
IsShort limit value = Unit

clamp_value-IsShort :
    (is_space : ℕ → Bool) (key path : Text) (limit : ℕ) (fs : Fields) (clamped : List Text)
    (o : Option Json)
    → get_field key fs ≡ o
    → 1 ≤ limit
    → IsShort limit (get_field key (clamp_value is_space key path limit (fs, clamped) o).0)
clamp_value-IsShort is_space key path limit fs clamped (some (string text)) e positive =
    elim (Bool-cases (ltb limit (length text))) [
      | inl l ↦
          rw (l, get_field-set_field key (string (truncate_text is_space text limit)) fs)
            (truncate_text-le is_space text limit positive)
      | inr l ↦ rw (l, e) (ground (arith, l))
    ]
clamp_value-IsShort is_space key path limit fs clamped none e positive = rw e tt
clamp_value-IsShort is_space key path limit fs clamped (some null) e positive = rw e tt
clamp_value-IsShort is_space key path limit fs clamped (some (boolean b)) e positive = rw e tt
clamp_value-IsShort is_space key path limit fs clamped (some (number d)) e positive = rw e tt
clamp_value-IsShort is_space key path limit fs clamped (some (array xs)) e positive = rw e tt
clamp_value-IsShort is_space key path limit fs clamped (some (object gs)) e positive = rw e tt

clamp_value-other :
    (is_space : ℕ → Bool) (key other path : Text) (limit : ℕ) (fs : Fields) (clamped : List Text)
    (o : Option Json)
    → text_eq key other ≡ false
    → get_field other (clamp_value is_space key path limit (fs, clamped) o).0 ≡ get_field other fs
clamp_value-other is_space key other path limit fs clamped (some (string text)) apart =
    elim (Bool-cases (ltb limit (length text))) [
      | inl l ↦ rw l (
          get_field-set_field-other key other (string (truncate_text is_space text limit)) fs apart)
      | inr l ↦ rw l refl
    ]
clamp_value-other is_space key other path limit fs clamped none apart = refl
clamp_value-other is_space key other path limit fs clamped (some null) apart = refl
clamp_value-other is_space key other path limit fs clamped (some (boolean b)) apart = refl
clamp_value-other is_space key other path limit fs clamped (some (number d)) apart = refl
clamp_value-other is_space key other path limit fs clamped (some (array xs)) apart = refl
clamp_value-other is_space key other path limit fs clamped (some (object gs)) apart = refl

clamp_field-IsShort :
    (is_space : ℕ → Bool) (key path : Text) (limit : ℕ) (r : Clamped)
    → 1 ≤ limit
    → IsShort limit (get_field key (clamp_field is_space key path limit r).0)
unfolding clamp_field
clamp_field-IsShort is_space key path limit (fs, clamped) positive =
    clamp_value-IsShort is_space key path limit fs clamped (get_field key fs) refl positive

clamp_field-other :
    (is_space : ℕ → Bool) (key other path : Text) (limit : ℕ) (r : Clamped)
    → text_eq key other ≡ false
    → get_field other (clamp_field is_space key path limit r).0 ≡ get_field other r.0
unfolding clamp_field
clamp_field-other is_space key other path limit (fs, clamped) apart =
    clamp_value-other is_space key other path limit fs clamped (get_field key fs) apart

abbrev pub IsShortFinding : Json → Type 0
IsShortFinding (object fs) =
    IsShort title_limit (get_field (codes "title") fs)
    × IsShort message_limit (get_field (codes "message") fs)
IsShortFinding value = Unit

title_apart : text_eq (codes "message") (codes "title") ≡ false
unfolding text_eq
title_apart = refl

clamp_finding-IsShortFinding :
    (is_space : ℕ → Bool) (index : ℕ) (clamped : List Text) (value : Json)
    → IsShortFinding (clamp_finding is_space index clamped value).0
unfolding clamp_finding
clamp_finding-IsShortFinding is_space index clamped (object fs) =
    let title =
      clamp_field is_space (codes "title") (finding_path index (codes "title")) title_limit
        (fs, clamped) in
    (
      rw
          (clamp_field-other is_space (codes "message") (codes "title")
            (finding_path index (codes "message")) message_limit title title_apart)
          (clamp_field-IsShort is_space (codes "title") (finding_path index (codes "title"))
            title_limit (fs, clamped) (omega arith)),
      clamp_field-IsShort is_space (codes "message") (finding_path index (codes "message"))
          message_limit title (omega arith),
    )
clamp_finding-IsShortFinding is_space index clamped null = tt
clamp_finding-IsShortFinding is_space index clamped (boolean b) = tt
clamp_finding-IsShortFinding is_space index clamped (number d) = tt
clamp_finding-IsShortFinding is_space index clamped (string s) = tt
clamp_finding-IsShortFinding is_space index clamped (array xs) = tt

abbrev pub AreShort : Items → Type 0
AreShort nil = Unit
AreShort (cons x xs) = IsShortFinding x × AreShort xs

clamp_findings-AreShort :
    (is_space : ℕ → Bool) (index : ℕ) (clamped : List Text) (xs : Items)
    → AreShort (clamp_findings is_space index clamped xs).0
      × (count_items (clamp_findings is_space index clamped xs).0 ≡ count_items xs)
unfolding clamp_findings count_items
clamp_findings-AreShort is_space index clamped nil = (tt, refl)
clamp_findings-AreShort is_space index clamped (cons x xs) =
    let clamped' = (clamp_finding is_space index clamped x).1 in
    let (short, same) = clamp_findings-AreShort is_space (suc index) clamped' xs in
    ((clamp_finding-IsShortFinding is_space index clamped x, short), omega (arith, same))

count_items-take_items : (n : ℕ) (xs : Items) → count_items (take_items n xs) ≤ n
unfolding count_items take_items
count_items-take_items zero xs = omega arith
count_items-take_items (suc n) nil = omega arith
count_items-take_items (suc n) (cons x xs) = omega (arith, count_items-take_items n xs)

abbrev pub AreFew : Option Json → Type 0
AreFew (some (array xs)) = (count_items xs ≤ findings_limit) × AreShort xs
AreFew value = Unit

kept-few :
    (xs : Items)
    → count_items (if ltb findings_limit (count_items xs) then take_items findings_limit xs else xs)
      ≤ findings_limit
kept-few xs = elim (Bool-cases (ltb findings_limit (count_items xs))) [
  | inl e ↦ rw e (count_items-take_items findings_limit xs)
  | inr e ↦ rw e (ground (arith, e))
]

with_findings-AreFew :
    (is_space : ℕ → Bool) (fs : Fields) (clamped : List Text) (o : Option Json)
    → get_field (codes "findings") fs ≡ o
    → AreFew (get_field (codes "findings") (with_findings is_space (fs, clamped) o).0)
with_findings-AreFew is_space fs clamped (some (array xs)) e =
    let short = ltb findings_limit (count_items xs) in
    let kept = if short then take_items findings_limit xs else xs in
    let clamped' = if short then clamped ++ codes "findings" ∷ [] else clamped in
    let (all_short, same) = clamp_findings-AreShort is_space 0 clamped' kept in
    rw
      (get_field-set_field (codes "findings") (array (clamp_findings is_space 0 clamped' kept).0)
        fs)
      (rw same (kept-few xs), all_short)
with_findings-AreFew is_space fs clamped none e = rw e tt
with_findings-AreFew is_space fs clamped (some null) e = rw e tt
with_findings-AreFew is_space fs clamped (some (boolean b)) e = rw e tt
with_findings-AreFew is_space fs clamped (some (number d)) e = rw e tt
with_findings-AreFew is_space fs clamped (some (string s)) e = rw e tt
with_findings-AreFew is_space fs clamped (some (object gs)) e = rw e tt

with_findings-other :
    (is_space : ℕ → Bool) (other : Text) (fs : Fields) (clamped : List Text) (o : Option Json)
    → text_eq (codes "findings") other ≡ false
    → get_field other (with_findings is_space (fs, clamped) o).0 ≡ get_field other fs
with_findings-other is_space other fs clamped (some (array xs)) apart =
    let short = ltb findings_limit (count_items xs) in
    let kept = if short then take_items findings_limit xs else xs in
    let clamped' = if short then clamped ++ codes "findings" ∷ [] else clamped in
    get_field-set_field-other (codes "findings") other
      (array (clamp_findings is_space 0 clamped' kept).0) fs apart
with_findings-other is_space other fs clamped none apart = refl
with_findings-other is_space other fs clamped (some null) apart = refl
with_findings-other is_space other fs clamped (some (boolean b)) apart = refl
with_findings-other is_space other fs clamped (some (number d)) apart = refl
with_findings-other is_space other fs clamped (some (string s)) apart = refl
with_findings-other is_space other fs clamped (some (object gs)) apart = refl

abbrev pub fields_of : Json → Fields
fields_of (object fs) = fs
fields_of value = Fields.done

no_field : IsShort summary_limit (get_field (codes "summary") Fields.done)
unfolding get_field
no_field = tt

no_field' : AreFew (get_field (codes "findings") Fields.done)
unfolding get_field
no_field' = tt

findings_apart : text_eq (codes "findings") (codes "summary") ≡ false
unfolding text_eq
findings_apart = refl

-- A clamped answer keeps within the limits of the schema: its summary, where it is a text, is no
-- longer than 1500; its findings, where they are a list, are no more than 25; and the title and the
-- message of each of them that is an object are, where they are texts, no longer than 80 and 600.
-- A field of the answer of any other name is as it was.
pub clamp_report_review_lem :
    (is_space : ℕ → Bool) (value : Json) (other : Text)
    → text_eq (codes "summary") other ≡ false
    → text_eq (codes "findings") other ≡ false
    → let kept = fields_of (clamp_report_review is_space value).0 in
      IsShort summary_limit (get_field (codes "summary") kept)
      × AreFew (get_field (codes "findings") kept)
      × (get_field other kept ≡ get_field other (fields_of value))
unfolding clamp_report_review
clamp_report_review_lem is_space (object fs) other apart apart' =
    let first = clamp_field is_space (codes "summary") (codes "summary") summary_limit (fs, []) in
    let found = get_field (codes "findings") first.0 in
    (
      rw (with_findings-other is_space (codes "summary") first.0 first.1 found findings_apart) (
          clamp_field-IsShort is_space (codes "summary") (codes "summary") summary_limit (fs, [])
            (omega arith)),
      with_findings-AreFew is_space first.0 first.1 found refl,
      with_findings-other is_space other first.0 first.1 found apart'
          ∙ clamp_field-other is_space (codes "summary") other (codes "summary") summary_limit
              (fs, []) apart,
    )
clamp_report_review_lem is_space null other apart apart' = (no_field, no_field', refl)
clamp_report_review_lem is_space (boolean b) other apart apart' = (no_field, no_field', refl)
clamp_report_review_lem is_space (number d) other apart apart' = (no_field, no_field', refl)
clamp_report_review_lem is_space (string s) other apart apart' = (no_field, no_field', refl)
clamp_report_review_lem is_space (array xs) other apart apart' = (no_field, no_field', refl)
