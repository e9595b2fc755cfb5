-- ===== src/Ai/Salvaging.antt =====
-- `salvageReview` of src/modules/ai/scan/report-review-repair.ts: nothing is missing afterwards.
use critiq_be.Prelude.{
  ◌≡◌, refl, ◌∙◌, true, false, ◌⊎◌, inl, inr, Option, none, some, List, [], Text, text_eq, findb,
  findb-true, Bool-cases,
}
use critiq_be.Ai.Json.{
  Json, object, Fields, get_field, get_field-set_field, get_field-set_field-other,
}
use critiq_be.Ai.Repair.{
  ReviewField, summary, findings, name_of, is_valid, has_field, missing_review_fields, records_of,
  last_of, empty_of, value_or_empty, Filled, fill_from, fill, salvage_from, salvage_review,
}

empty-valid : (f : ReviewField) → is_valid f (some (empty_of f)) ≡ true
empty-valid summary = refl
empty-valid findings = refl

valid-some :
    (f : ReviewField) (o : Option Json)
    → is_valid f o ≡ true
    → is_valid f (some (value_or_empty f o)) ≡ true
valid-some summary none h = refl
valid-some findings none h = refl
valid-some f (some v) h = h

fill_from-has_field :
    (records : List Fields) (f : ReviewField) (r : Filled) (o : Option Fields)
    → findb (has_field f) records ≡ o
    → has_field f (fill_from f o r).0 ≡ true
fill_from-has_field records f (fs, defaulted) none e =
    rw (get_field-set_field (name_of f) (empty_of f) fs) (empty-valid f)
fill_from-has_field records f (fs, defaulted) (some earlier) e =
    rw (get_field-set_field (name_of f) (value_or_empty f (get_field (name_of f) earlier)) fs)
      (valid-some f (get_field (name_of f) earlier) (findb-true (has_field f) records earlier e))

fill-has_field :
    (records : List Fields) (f : ReviewField) (r : Filled) → has_field f (fill records f r).0 ≡ true
unfolding fill
fill-has_field records f (fs, defaulted) = elim (Bool-cases (has_field f fs)) [
  | inl e ↦ rw (e, e) refl
  | inr e ↦ rw e (fill_from-has_field records f (fs, defaulted) (findb (has_field f) records) refl)
]

fill_from-other :
    (f : ReviewField) (other : Text) (r : Filled) (o : Option Fields)
    → text_eq (name_of f) other ≡ false
    → get_field other (fill_from f o r).0 ≡ get_field other r.0
fill_from-other f other (fs, defaulted) none apart =
    get_field-set_field-other (name_of f) other (empty_of f) fs apart
fill_from-other f other (fs, defaulted) (some earlier) apart =
    get_field-set_field-other (name_of f) other (value_or_empty f (get_field (name_of f) earlier))
      fs apart

fill-other :
    (records : List Fields) (f : ReviewField) (other : Text) (r : Filled)
    → text_eq (name_of f) other ≡ false
    → get_field other (fill records f r).0 ≡ get_field other r.0
unfolding fill
fill-other records f other (fs, defaulted) apart = elim (Bool-cases (has_field f fs)) [
  | inl e ↦ rw e refl
  | inr e ↦ rw e (fill_from-other f other (fs, defaulted) (findb (has_field f) records) apart)
]

apart : text_eq (name_of findings) (name_of summary) ≡ false
unfolding text_eq
apart = refl

missing-none :
    (fs : Fields)
    → has_field summary fs ≡ true
    → has_field findings fs ≡ true
    → missing_review_fields (object fs) ≡ []
unfolding missing_review_fields
missing-none fs s f = rw (s, f) refl

-- From several attempts of a model nothing is put together where they have no last object; where
-- they have one, the answer is an object from which no field is missing any more, and in which every
-- field besides the summary and the findings is as in that last object.
pub salvage_review_lem :
    (attempts : List Json) (other : Text)
    → text_eq (name_of summary) other ≡ false
    → text_eq (name_of findings) other ≡ false
    → ((last_of (records_of attempts) ≡ none) × (salvage_review attempts ≡ none))
      ⊎ ((base : Fields) × (fs : Fields) × (defaulted : List ReviewField) × (last_of
              (records_of attempts)
            ≡ some base)
          × (salvage_review attempts ≡ some (fs, defaulted))
          × (missing_review_fields (object fs) ≡ [])
          × (get_field other fs ≡ get_field other base))
unfolding salvage_review
salvage_review_lem attempts other s f = from (last_of (records_of attempts))
  where
    records : List Fields
    records = records_of attempts

    from :
        (o : Option Fields)
        → ((o ≡ none) × (salvage_from records o ≡ none))
          ⊎ ((base : Fields) × (fs : Fields) × (defaulted : List ReviewField) × (o ≡ some base)
              × (salvage_from records o ≡ some (fs, defaulted))
              × (missing_review_fields (object fs) ≡ [])
              × (get_field other fs ≡ get_field other base))
    from none = inl (refl, refl)
    from (some base) =
        let first = fill records summary (base, []) in
        let second = fill records findings first in
        inr (
          base,
          second.0,
          second.1,
          refl,
          refl,
          missing-none second.0
              (rw (fill-other records findings (name_of summary) first apart)
                (fill-has_field records summary (base, [])))
              (fill-has_field records findings first),
          fill-other records findings other first f ∙ fill-other records summary other (base, []) s,
        )
