-- ===== src/Ai/Repair.antt =====
-- src/modules/ai/scan/report-review-repair.ts: what a model left out of its answer, and an answer
-- put together from its attempts.
use critiq_be.Prelude.{
  Bool, true, false, Option, none, some, List, [], ◌∷◌, ◌++◌, Text, codes, findb, if◌then◌else◌,
}
use critiq_be.Ai.Json.{
  Json, null, boolean, number, string, array, object, Items, Fields, get_field, set_field,
}

pub data ReviewField : Type 0 where
  summary findings : ReviewField

abbrev pub name_of : ReviewField → Text
name_of summary = codes "summary"
name_of findings = codes "findings"

abbrev pub is_string : Option Json → Bool
is_string (some (string s)) = true
is_string _ = false

abbrev pub is_array : Option Json → Bool
is_array (some (array xs)) = true
is_array _ = false

abbrev pub is_valid : ReviewField → Option Json → Bool
is_valid summary value = is_string value
is_valid findings value = is_array value

abbrev pub has_field : ReviewField → Fields → Bool
has_field f fs = is_valid f (get_field (name_of f) fs)

unfoldable pub missing_of : Fields → List ReviewField
unfolding get_field
missing_of fs =
    (if has_field summary fs then [] else summary ∷ [])
    ++ (if has_field findings fs then [] else findings ∷ [])

unfoldable pub missing_review_fields : Json → List ReviewField
unfolding missing_of
missing_review_fields (object fs) = missing_of fs
missing_review_fields value = summary ∷ findings ∷ []

-- `attempts.filter(isRecord)`
unfoldable pub records_of : List Json → List Fields
records_of [] = []
records_of (object fs ∷ rest) = fs ∷ records_of rest
records_of (null ∷ rest) = records_of rest
records_of (boolean b ∷ rest) = records_of rest
records_of (number d ∷ rest) = records_of rest
records_of (string s ∷ rest) = records_of rest
records_of (array xs ∷ rest) = records_of rest

-- `.at(-1)`
unfoldable pub last_of : List Fields → Option Fields
last_of [] = none
last_of (fs ∷ rest) = elim (last_of rest) [ none ↦ some fs | some last ↦ some last ]

abbrev pub empty_of : ReviewField → Json
empty_of summary = string []
empty_of findings = array Items.nil

abbrev pub value_or_empty : ReviewField → Option Json → Json
value_or_empty f none = empty_of f
value_or_empty f (some v) = v

abbrev pub Filled : Type 0
Filled = Fields × List ReviewField

abbrev pub fill_from : ReviewField → Option Fields → Filled → Filled
fill_from f none (fs, defaulted) = (set_field (name_of f) (empty_of f) fs, defaulted ++ f ∷ [])
fill_from f (some earlier) (fs, defaulted) =
    (set_field (name_of f) (value_or_empty f (get_field (name_of f) earlier)) fs, defaulted)

unfoldable pub fill : List Fields → ReviewField → Filled → Filled
unfolding findb get_field set_field
fill records f (fs, defaulted) =
    if has_field f fs
    then (fs, defaulted)
    else fill_from f (findb (has_field f) records) (fs, defaulted)

abbrev pub salvage_from : List Fields → Option Fields → Option Filled
salvage_from records none = none
salvage_from records (some base) = some (fill records findings (fill records summary (base, [])))

unfoldable pub salvage_review : List Json → Option Filled
unfolding records_of last_of fill
salvage_review attempts = salvage_from (records_of attempts) (last_of (records_of attempts))
