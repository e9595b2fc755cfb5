-- ===== src/Reviews/Latest.antt =====
-- `latestPerReviewer` keeps each reviewer's newest decision and nothing else.
use critiq_be.Prelude.{
  ℕ, suc, ◌+◌, ◌≡◌, refl, sym, ap, ◌∙◌, inl, inr, Bool, true, false, ◌||◌, Option, none, some, List,
  [], ◌∷◌, ◌++◌, Text, text_eq, text_eq_iff, contains, anyb, arith, countb, ◌≤◌, eq_Text,
  starts_with, codes, Bool-cases, if◌then◌else◌,
}
use critiq_be.Diff.Render.{decimal}
use critiq_be.Reviews.Types.{ReviewDecision, is_text}
use critiq_be.Reviews.Blockers.{HeadReview, review_key, latest_from, latest_per_reviewer}

-- The decision that stands for a reviewer: that of the newest review.
abbrev pub standing : Text → List HeadReview → Option ReviewDecision
standing user [] = none
standing user (r ∷ rs) =
    let later = standing user rs in if is_text r.reviewer_id user then some r.decision else later

-- The reviews of one reviewer.
unfoldable pub reviews_by : Text → List HeadReview → ℕ
unfolding countb
reviews_by user reviews = countb (λ r. is_text r.reviewer_id user) reviews

starts_with-append : (p s : Text) → starts_with p (p ++ s) ≡ true
unfolding starts_with
starts_with-append [] s = refl
starts_with-append (c ∷ p) s = ground (arith, starts_with-append p s)

abbrev pub deleted_prefix : Text
deleted_prefix = codes "deleted-"

-- The key of a review by another reviewer, or by a deleted account, is not the user's.
review_key_other :
    (i : ℕ) (id : Option Text) (user : Text)
    → starts_with deleted_prefix user ≡ false
    → is_text id user ≡ false
    → text_eq (review_key i id) user ≡ false
review_key_other i (some id) user h e = e
review_key_other i none user h e = elim (Bool-cases (text_eq (review_key i none) user)) [
  | inr f ↦ f
  | inl t ↦
      let same : review_key i none ≡ user = (text_eq_iff _ _).0 t in
      let pre : starts_with deleted_prefix user ≡ true =
        ap (starts_with deleted_prefix) (sym same)
        ∙ starts_with-append deleted_prefix (decimal i) in
      cc
]

contains-cons :
    (seen : List Text) (k a : Text) → contains (k ∷ seen) a ≡ (text_eq k a || contains seen a)
unfolding contains anyb
contains-cons seen k a = refl

module _ (i : ℕ) (seen : List Text) (r : HeadReview) (rs : List HeadReview) where
  latest_from_seen :
      contains seen (review_key i r.reviewer_id) ≡ true
      → latest_from i seen (r ∷ rs) ≡ latest_from (suc i) seen rs
  unfolding latest_from
  latest_from_seen e = rw (e) refl

  latest_from_next :
      contains seen (review_key i r.reviewer_id) ≡ false
      → latest_from i seen (r ∷ rs) ≡ r ∷ latest_from (suc i) (review_key i r.reviewer_id ∷ seen) rs
  unfolding latest_from
  latest_from_next e = rw (e) refl

seen_other :
    (seen : List Text) (key user : Text)
    → contains seen key ≡ true
    → contains seen user ≡ false
    → text_eq key user ≡ false
seen_other seen key user h k = elim (Bool-cases (text_eq key user)) [
  | inr f ↦ f
  | inl t ↦
      let same : key ≡ user = (text_eq_iff key user).0 t in
      let e : contains seen user ≡ true = ap (contains seen) (sym same) ∙ h in cc
]

is_text-key :
    (i : ℕ) (id : Option Text) (user : Text)
    → text_eq (review_key i id) user ≡ false
    → is_text id user ≡ false
is_text-key i none user h = refl
is_text-key i (some id) user h = h

is_text-contains :
    (i : ℕ) (seen : List Text) (id : Option Text) (user : Text)
    → contains seen (review_key i id) ≡ false
    → contains seen user ≡ true
    → is_text id user ≡ false
is_text-contains i seen none user h k = refl
is_text-contains i seen (some id) user h k = elim (Bool-cases (text_eq id user)) [
  | inr f ↦ f
  | inl t ↦
      let same : id ≡ user = (text_eq_iff id user).0 t in
      let e : contains seen user ≡ false = ap (contains seen) (sym same) ∙ h in cc
]

standing_other :
    (user : Text) (r : HeadReview) (rs : List HeadReview)
    → is_text r.reviewer_id user ≡ false
    → standing user (r ∷ rs) ≡ standing user rs
standing_other user r rs e = rw (e) refl

standing_own :
    (user : Text) (r : HeadReview) (rs : List HeadReview)
    → is_text r.reviewer_id user ≡ true
    → standing user (r ∷ rs) ≡ some r.decision
standing_own user r rs e = rw (e) refl

latest_from-standing :
    (user : Text) (i : ℕ) (seen : List Text) (rs : List HeadReview)
    → starts_with deleted_prefix user ≡ false
    → contains seen user ≡ false
    → standing user (latest_from i seen rs) ≡ standing user rs
latest_from-standing user i seen [] h k = unfold latest_from in refl
latest_from-standing user i seen (r ∷ rs) h k =
    let key = review_key i r.reviewer_id in
    elim (Bool-cases (contains seen key)) [
      | inl e ↦
          ap (standing user) (latest_from_seen i seen r rs e)
          ∙ latest_from-standing user (suc i) seen rs h k
          ∙ sym (
              standing_other user r rs
                (is_text-key i r.reviewer_id user (seen_other seen key user e k)))
      | inr e ↦
          ap (standing user) (latest_from_next i seen r rs e)
          ∙ elim (Bool-cases (is_text r.reviewer_id user)) [
            | inl own ↦
                standing_own user r (latest_from (suc i) (key ∷ seen) rs) own
                ∙ sym (standing_own user r rs own)
            | inr other ↦
                let unseen : contains (key ∷ seen) user ≡ false =
                  contains-cons seen key user
                  ∙ rw (review_key_other i r.reviewer_id user h other) k in
                standing_other user r (latest_from (suc i) (key ∷ seen) rs) other
                ∙ latest_from-standing user (suc i) (key ∷ seen) rs h unseen
                ∙ sym (standing_other user r rs other)
          ]
    ]

reviews_by-cons :
    (user : Text) (r : HeadReview) (rs : List HeadReview)
    → reviews_by user (r ∷ rs) ≡ (if is_text r.reviewer_id user then 1 else 0) + reviews_by user rs
unfolding reviews_by countb
reviews_by-cons user r rs = refl

latest_from-reviews_by-seen :
    (user : Text) (i : ℕ) (seen : List Text) (rs : List HeadReview)
    → contains seen user ≡ true
    → reviews_by user (latest_from i seen rs) ≡ 0
latest_from-reviews_by-seen user i seen [] k = unfold latest_from reviews_by countb in refl
latest_from-reviews_by-seen user i seen (r ∷ rs) k =
    let key = review_key i r.reviewer_id in
    elim (Bool-cases (contains seen key)) [
      | inl e ↦
          ap (reviews_by user) (latest_from_seen i seen r rs e)
          ∙ latest_from-reviews_by-seen user (suc i) seen rs k
      | inr e ↦
          ap (reviews_by user) (latest_from_next i seen r rs e)
          ∙ reviews_by-cons user r (latest_from (suc i) (key ∷ seen) rs)
          ∙ rw (is_text-contains i seen r.reviewer_id user e k) (
              omega (
                arith,
                latest_from-reviews_by-seen user (suc i) (key ∷ seen) rs
                    (contains-cons seen key user ∙ or-true (text_eq key user) k),
              ))
    ]
  where
    or-true : (b : Bool) {c : Bool} → c ≡ true → (b || c) ≡ true
    or-true true e = refl
    or-true false e = e

own_key :
    (i : ℕ) (id : Option Text) (user : Text)
    → is_text id user ≡ true
    → text_eq (review_key i id) user ≡ true
own_key i none user e = cc
own_key i (some id) user e = e

latest_from-reviews_by :
    (user : Text) (i : ℕ) (seen : List Text) (rs : List HeadReview)
    → reviews_by user (latest_from i seen rs) ≤ 1
latest_from-reviews_by user i seen [] = unfold latest_from reviews_by countb in omega arith
latest_from-reviews_by user i seen (r ∷ rs) =
    let key = review_key i r.reviewer_id in
    let rest = latest_from (suc i) (key ∷ seen) rs in
    elim (Bool-cases (contains seen key)) [
      | inl e ↦ rw (latest_from_seen i seen r rs e) (latest_from-reviews_by user (suc i) seen rs)
      | inr e ↦
          rw (latest_from_next i seen r rs e, reviews_by-cons user r rest)
            (elim (Bool-cases (is_text r.reviewer_id user)) [
              | inl own ↦
                  let found : contains (key ∷ seen) user ≡ true =
                    contains-cons seen key user ∙ rw (own_key i r.reviewer_id user own) refl in
                  rw (own)
                    (omega (arith, latest_from-reviews_by-seen user (suc i) (key ∷ seen) rs found))
              | inr other ↦
                  rw (other) (omega (arith, latest_from-reviews_by user (suc i) (key ∷ seen) rs))
            ])
    ]

-- Of reviews listed newest first, `latestPerReviewer` keeps at most one by each reviewer, and the
-- decision that stands for a reviewer afterwards is that of the reviewer's newest review, if there
-- is one. The reviewer's identifier does not begin with the text that keys deleted accounts.
pub latest_per_reviewer_lem :
    (user : Text) (newest_first : List HeadReview)
    → starts_with (codes "deleted-") user ≡ false
    → (standing user (latest_per_reviewer newest_first) ≡ standing user newest_first)
      × (reviews_by user (latest_per_reviewer newest_first) ≤ 1)
unfolding latest_per_reviewer
latest_per_reviewer_lem user rs h = (
  latest_from-standing user 0 [] rs h (unfold contains anyb in refl),
  latest_from-reviews_by user 0 [] rs,
)
